-- ===== src/ControlPlane/Writes/Joining.antt =====
-- internal/controlplane/store.go, host.go: joining a session.
use mathlib.Core.Path.{subst}
use remote_dev_skillkit.Prelude.{
  String, Bool, true, false, ◌||◌, ◌==◌, ◌!=◌, Option, none, some, List, [], ◌∷◌, ◌≡◌, refl, sym,
  string_eq, get, get_or, find?, arith, ℤ, if◌then◌else◌,
}
use remote_dev_skillkit.Prelude.Text.{trim_space}
use remote_dev_skillkit.Exec.{pure, gets, ◌>>=◌}
use remote_dev_skillkit.ControlPlane.Protocol.{
  SessionStatus, EndpointRole, endpoint_role_eq, session_terminal,
}
use remote_dev_skillkit.ControlPlane.Session.{Time, Session, Endpoint, EndpointSpec, Host}
use remote_dev_skillkit.ControlPlane.World.{World}
use remote_dev_skillkit.ControlPlane.Store.{MemoryStore, no_session, now, new_id, id_or_empty}
use remote_dev_skillkit.ControlPlane.Endpoints.{
  with_endpoint, endpoint_identity_key, constrained_endpoint_capabilities,
}
use remote_dev_skillkit.ControlPlane.Leases.{issue_lease_locked}
use remote_dev_skillkit.ControlPlane.Join.{
  put_host, new_host, upsert_host_locked, store_endpoint, join_again, join_first,
  join_endpoint_locked, join_session, greet, rejoined, first_joined, single_target_taken,
  same_identity, joined_role, chosen_id, join_over, upsert_over,
}
use remote_dev_skillkit.ControlPlane.Writes.{
  quiet, update, single_step, TasksStep, EndpointsStep, Updates,
}
use remote_dev_skillkit.ControlPlane.Writes.Rules.{
  Refines, IsQuiet, Refines-quiet, IsQuiet-pure, Refines-bind_quiet, Refines-bind, Refines-put,
  Refines-last_put, IsQuiet-now, IsQuiet-new_id, IsQuiet-session_expired, Refines-append,
}
use remote_dev_skillkit.ControlPlane.Writes.Guards.{Refines-guard, Refines-find_session, Refines-if}
use remote_dev_skillkit.ControlPlane.Writes.Lifecycle.{refuse_expired-Refines}

find?-sound : {A : Type 0} (p : A → Bool) (xs : List A) (a : A) → find? p xs ≡ some a → p a ≡ true
find?-sound p [] a h = ground arith
find?-sound p (x ∷ xs) a h = ground (arith, find?-sound p xs a)

module _ ⦃w : World⦄ where
  put_host-Refines :
      (x : MemoryStore) (h : Host) (session : Session) (e : Endpoint) (t : Time)
      → Refines x (put_host h session e t)
  unfolding put_host
  put_host-Refines x h session e t = Refines-last_put x _ (quiet refl refl)

  upsert_over-Refines :
      (x : MemoryStore) (o : Option Host) (session : Session) (e : Endpoint) (t : Time)
      → Refines x (upsert_over o session e t)
  upsert_over-Refines x (some h) session e t = record {
    at = λ k s. (put_host-Refines x h session e t).at k s;
  }
  upsert_over-Refines x none session e t = record {
    at = λ k s.
        (Refines-bind_quiet x _ _ (IsQuiet-new_id "hst")
            λ id _ _. put_host-Refines x (new_host id e t) session e t).at
          k s;
  }

  upsert_host-Refines :
      (x : MemoryStore) (session : Session) (e : Endpoint) (t : Time)
      → Refines x (upsert_host_locked session e t)
  unfolding upsert_host_locked
  upsert_host-Refines x session e t =
      Refines-if x (e.role != EndpointRole.target || trim_space e.identity_fingerprint == "") _ _
        (λ _. Refines-quiet x _ (IsQuiet-pure tt))
        λ _. record {
          at = λ k s.
              (upsert_over-Refines x (get e.identity_fingerprint x.hosts) session e t).at k s;
        }

  pub issue-Refines :
      (x : MemoryStore) (session : Session) (e : Endpoint) (ttl renew retry : ℤ)
      → Refines x (issue_lease_locked session e ttl renew retry)
  unfolding issue_lease_locked now id_or_empty
  issue-Refines x session e ttl renew retry = record { at = λ k s. single_step (quiet refl refl) }

  module _ (session : Session) (e : Endpoint) (role : EndpointRole) (fingerprint platform : String)
      (advertised existing : List String)
      (known : endpoint_identity_key session.id e.role e.identity_fingerprint e.platform
        ≡ endpoint_identity_key session.id role fingerprint platform)
      (limited : e.capabilities
        ≡ constrained_endpoint_capabilities session role advertised existing) where
    -- An endpoint that is stored with the capabilities that its session lets it have.
    placed-Updates :
        (t : Time)
        → session_terminal session.status ≡ false
        → Updates session (with_endpoint (record session { status = SessionStatus.online }) e t)
    unfolding with_endpoint
    placed-Updates t live = record {
      id = refl;
      capabilities = refl;
      join_policy = refl;
      last_seq = refl;
      terminal = λ h. ground (arith, h, live);
      tasks = TasksStep.same refl;
      endpoints =
          EndpointsStep.place _ role fingerprint platform advertised existing known limited refl;
    }

    store_endpoint-Refines :
        (x : MemoryStore)
        → get session.id x.sessions ≡ some session
        → session_terminal session.status ≡ false
        → Refines x (store_endpoint session e)
    unfolding store_endpoint
    store_endpoint-Refines x found live = Refines-bind_quiet x now _ IsQuiet-now λ updated _ _.
        Refines-put x _ _
          (update session.id session _ found (placed-Updates updated live) refl refl)
          (Refines-bind_quiet _ now _ IsQuiet-now λ seen _ _.
            Refines-bind _ (upsert_host_locked _ e seen) _ (upsert_host-Refines _ _ e seen)
              λ z _ _. Refines-quiet z _ (IsQuiet-pure _))

  IsQuiet-chosen_id : (spec : EndpointSpec) → IsQuiet (chosen_id spec)
  IsQuiet-chosen_id spec = if_quiet (spec.endpoint_id == "")
    where
      if_quiet : (b : Bool) → IsQuiet (if b then new_id "end" else pure spec.endpoint_id)
      if_quiet true = IsQuiet-new_id "end"
      if_quiet false = IsQuiet-pure spec.endpoint_id

  module _ (x : MemoryStore) (session : Session) (spec : EndpointSpec)
      (found : get session.id x.sessions ≡ some session)
      (live : session_terminal session.status ≡ false) where
    join_first-Refines : Refines x (join_first session spec)
    unfolding join_first
    join_first-Refines = Refines-guard x (single_target_taken session spec) _ _ λ _.
        Refines-bind_quiet x _ _ (IsQuiet-chosen_id spec) λ id _ _.
          Refines-bind_quiet x now _ IsQuiet-now λ t _ _.
            Refines-bind x _ _
              (store_endpoint-Refines session (first_joined session spec id t) (joined_role spec)
                spec.identity_fingerprint spec.platform spec.capabilities [] refl refl x found live)
              λ z _ _. Refines-quiet z _ (IsQuiet-pure _)

    join_again-Refines :
        (e : Endpoint) → same_identity session spec e ≡ true → Refines x (join_again session spec e)
    unfolding join_again same_identity
    join_again-Refines e same = Refines-bind_quiet x now _ IsQuiet-now λ t _ _.
        Refines-bind x _ _
          (store_endpoint-Refines session (rejoined session spec e t) (joined_role spec)
            spec.identity_fingerprint spec.platform spec.capabilities e.capabilities
            (ground (arith, same)) refl x found live)
          λ z _ _. Refines-quiet z _ (IsQuiet-pure _)

    join_over-Refines :
        (o : Option Endpoint)
        → ((e : Endpoint) → o ≡ some e → same_identity session spec e ≡ true)
        → Refines x (join_over o session spec)
    join_over-Refines none same = join_first-Refines
    join_over-Refines (some e) same = join_again-Refines e (same e refl)

    join_endpoint-Refines : Refines x (join_endpoint_locked session spec)
    unfolding join_endpoint_locked
    join_endpoint-Refines =
        join_over-Refines (find? (same_identity session spec) session.endpoints)
          λ e. find?-sound (same_identity session spec) session.endpoints e

  greet-Refines :
      (x : MemoryStore) (created : Bool) (session_id : String) (e : Endpoint)
      → Refines x (greet created session_id e)
  greet-Refines x false session_id e = Refines-quiet x _ (IsQuiet-pure tt)
  greet-Refines x true session_id e =
      Refines-append x session_id _ true _ λ hello y _. Refines-quiet y _ (IsQuiet-pure tt)

  join_found-Refines :
      (x : MemoryStore) (session_id : String) (session : Session) (spec : EndpointSpec)
      → get session_id x.sessions ≡ some session
      → session_terminal session.status ≡ false
      → Refines x (join_endpoint_locked session spec)
  join_found-Refines x session_id session spec found live = record {
    at = λ k s.
        (join_endpoint-Refines x session spec
            (subst (λ id. get id x.sessions ≡ some session) (sym (k.keyed session_id session found))
              found)
            live).at
          k s;
  }

  pub join_session-Refines :
      (x : MemoryStore) (session_id : String) (spec : EndpointSpec)
      → Refines x (join_session session_id spec)
  unfolding join_session
  join_session-Refines x session_id spec = Refines-find_session x session_id _ λ session found.
      Refines-bind_quiet x _ _ (IsQuiet-session_expired session) λ expired _ _.
        refuse_expired-Refines x expired session_id _ λ _.
          Refines-guard x (session_terminal session.status) _ _ λ live.
            Refines-bind x _ _ (join_found-Refines x session_id session spec found live) λ y a _.
              Refines-bind_quiet y (gets (λ s. get_or session_id no_session s.sessions)) _
                (record { at = λ s. refl })
                λ joined _ _.
                  Refines-bind y
                    (issue_lease_locked joined a.0 spec.lease_ttl_ms spec.renew_after_ms
                      spec.retry_after_ms)
                    _
                    (issue-Refines y joined a.0 spec.lease_ttl_ms spec.renew_after_ms
                      spec.retry_after_ms)
                    λ z lease _.
                      Refines-bind z (greet a.1 session_id a.0) _
                        (greet-Refines z a.1 session_id a.0)
                        λ v _ _.
                          Refines-quiet v
                            (gets (λ s. get_or session_id no_session s.sessions) >>= λ after.
                              pure (after, a.0, lease))
                            (record { at = λ s. refl })
