-- ===== src/ControlPlane/Writes/Reading.antt =====
-- internal/controlplane/store.go: reading a session, its events and its leases.
use remote_dev_skillkit.Prelude.{
  ℕ, ℤ, String, Bool, true, false, Option, none, some, ◌≡◌, refl, string_eq, get, find?, arith, pos,
  ltb, Bool-cases, inl, inr, ◌==◌,
}
use remote_dev_skillkit.Exec.{require, fail_if, ◌>>=◌}
use remote_dev_skillkit.ControlPlane.Protocol.{session_terminal}
use remote_dev_skillkit.ControlPlane.Session.{Time, Session, Endpoint, EventCursor, LeaseRecord}
use remote_dev_skillkit.ControlPlane.World.{World}
use remote_dev_skillkit.ControlPlane.Store.{MemoryStore, Store, State, now}
use remote_dev_skillkit.ControlPlane.Endpoints.{with_endpoint}
use remote_dev_skillkit.ControlPlane.Lifecycle.{expire_session_locked}
use remote_dev_skillkit.ControlPlane.Leases.{authorize_lease_locked}
use remote_dev_skillkit.ControlPlane.Reads.{
  has_endpoint_id, read_session, check_cursor, events_after, peek_events_after,
  events_after_for_agent, validate_lease, reported, recovered, endpoint_not_found,
}
use remote_dev_skillkit.ControlPlane.Writes.{update, TasksStep, EndpointsStep, Updates}
use remote_dev_skillkit.ControlPlane.Writes.Rules.{
  Refines, IsQuiet, Refines-quiet, IsQuiet-pure, Refines-bind_quiet, Refines-bind, Refines-put,
  IsQuiet-now, IsQuiet-session_expired,
}
use remote_dev_skillkit.ControlPlane.Writes.Guards.{
  Refines-assoc, Refines-require, Refines-guard, Refines-find_session, IsQuiet-find_session,
}
use remote_dev_skillkit.ControlPlane.Writes.Lifecycle.{
  refuse_expired-Refines, expire_session_locked-Refines,
}
use remote_dev_skillkit.ControlPlane.Writes.Joining.{issue-Refines}

module _ ⦃w : World⦄ where
  authorize_over-IsQuiet :
      (o : Option LeaseRecord) (session : Session) (endpoint_id secret : String)
      → (s : State) → get endpoint_id s.leases ≡ o
      → (authorize_lease_locked session endpoint_id secret s).1.store ≡ s.store
  unfolding authorize_lease_locked now
  authorize_over-IsQuiet none session endpoint_id secret s h = rw (h, authorize_lease_locked)
  authorize_over-IsQuiet (some r) session endpoint_id secret s h =
      elim (Bool-cases (secret == "")) [
        | inl empty ↦ rw (h, empty, authorize_lease_locked)
        | inr given ↦ rw (h, given, authorize_lease_locked)
      ]

  pub IsQuiet-authorize :
      (session : Session) (endpoint_id secret : String)
      → IsQuiet (authorize_lease_locked session endpoint_id secret)
  IsQuiet-authorize session endpoint_id secret = record {
    at = λ s. authorize_over-IsQuiet (get endpoint_id s.leases) session endpoint_id secret s refl;
  }

  check_cursor-Refines :
      {B : Type 0} (x : MemoryStore) (session : Session) (cursor : EventCursor)
      (f : Endpoint × Bool → Store B)
      → ((e : Endpoint) (reconnecting : Bool)
          → session_terminal session.status ≡ false
          → find? (has_endpoint_id cursor.endpoint_id) session.endpoints ≡ some e
          → Refines x (f (e, reconnecting)))
      → Refines x (check_cursor session cursor >>= f)
  unfolding check_cursor
  check_cursor-Refines x session cursor f h =
      Refines-assoc x (fail_if (session_terminal session.status) _) _ f (
        Refines-guard x (session_terminal session.status) _ _ λ live.
          Refines-assoc x (fail_if (ltb cursor.after_seq session.snapshot_seq) _) _ f (
            Refines-guard x (ltb cursor.after_seq session.snapshot_seq) _ _ λ _.
              Refines-assoc x
                (require (find? (has_endpoint_id cursor.endpoint_id) session.endpoints)
                  endpoint_not_found)
                _ f
                (Refines-require x (find? (has_endpoint_id cursor.endpoint_id) session.endpoints) _
                  _
                  λ e found.
                    Refines-assoc x (authorize_lease_locked session e.id cursor.lease_secret) _ f (
                      Refines-bind_quiet x _ _ (IsQuiet-authorize session e.id cursor.lease_secret)
                        λ reconnecting _ _. h e reconnecting live found))))

  -- The report of an endpoint about itself.
  reported-Updates :
      (session : Session) (e : Endpoint) (cursor : EventCursor) (reconnecting : Bool)
      (seen updated : Time)
      → session_terminal session.status ≡ false
      → find? (has_endpoint_id cursor.endpoint_id) session.endpoints ≡ some e
      → Updates session (
          with_endpoint
            (recovered session reconnecting)
            (reported e cursor reconnecting seen)
            updated)
  unfolding with_endpoint
  reported-Updates session e cursor true seen updated live found = record {
    id = refl;
    capabilities = refl;
    join_policy = refl;
    last_seq = refl;
    terminal = λ h. ground (arith, h, live);
    tasks = TasksStep.same refl;
    endpoints = EndpointsStep.report e _ cursor.endpoint_id found refl refl refl refl;
  }
  reported-Updates session e cursor false seen updated live found = record {
    id = refl;
    capabilities = refl;
    join_policy = refl;
    last_seq = refl;
    terminal = λ h. h;
    tasks = TasksStep.same refl;
    endpoints = EndpointsStep.report e _ cursor.endpoint_id found refl refl refl refl;
  }

  pub read_session-Refines :
      (x : MemoryStore) (session_id : String) → Refines x (read_session session_id)
  unfolding read_session
  read_session-Refines x session_id =
      Refines-bind x (expire_session_locked session_id) _
        (expire_session_locked-Refines x session_id)
        λ y _ _. Refines-quiet y _ (IsQuiet-find_session session_id)

  pub events_after-Refines :
      (x : MemoryStore) (session_id : String) (cursor : EventCursor) (limit : ℤ)
      → Refines x (events_after session_id cursor limit)
  unfolding events_after
  events_after-Refines x session_id cursor limit =
      Refines-find_session x session_id _ λ session found.
        Refines-bind_quiet x _ _ (IsQuiet-session_expired session) λ expired _ _.
          refuse_expired-Refines x expired session_id _ λ _.
            check_cursor-Refines x session cursor _ λ e reconnecting live hit.
              Refines-bind_quiet x now _ IsQuiet-now λ seen _ _.
                Refines-bind_quiet x now _ IsQuiet-now λ updated _ _.
                  Refines-put x _ _
                    (update session_id session _ found
                      (reported-Updates session e cursor reconnecting seen updated live hit) refl
                      refl)
                    (Refines-bind _ _ _ (issue-Refines _ _ _ (pos 0) (pos 0) (pos 0))
                      λ z lease _. Refines-quiet z _ (record { at = λ s. refl }))

  pub peek_events_after-Refines :
      (x : MemoryStore) (session_id : String) (cursor : EventCursor) (limit : ℤ)
      → Refines x (peek_events_after session_id cursor limit)
  unfolding peek_events_after
  peek_events_after-Refines x session_id cursor limit =
      Refines-find_session x session_id _ λ session found.
        Refines-bind_quiet x _ _ (IsQuiet-session_expired session) λ expired _ _.
          Refines-guard x expired _ _ λ _.
            check_cursor-Refines x session cursor _
              λ e reconnecting live hit. Refines-quiet x _ (record { at = λ s. refl })

  pub events_after_for_agent-Refines :
      (x : MemoryStore) (session_id : String) (after_seq : ℕ) (limit : ℤ)
      → Refines x (events_after_for_agent session_id after_seq limit)
  unfolding events_after_for_agent
  events_after_for_agent-Refines x session_id after_seq limit =
      Refines-bind x (expire_session_locked session_id) _
        (expire_session_locked-Refines x session_id)
        λ y _ _. Refines-find_session y session_id _ λ session found.
          Refines-guard y (ltb after_seq session.snapshot_seq) _ _
            λ _. Refines-quiet y _ (record { at = λ s. refl })

  pub validate_lease-Refines :
      (x : MemoryStore) (session_id endpoint_id secret : String)
      → Refines x (validate_lease session_id endpoint_id secret)
  unfolding validate_lease
  validate_lease-Refines x session_id endpoint_id secret =
      Refines-find_session x session_id _ λ session found.
        Refines-bind_quiet x _ _ (IsQuiet-session_expired session) λ expired _ _.
          refuse_expired-Refines x expired session_id _ λ _.
            Refines-guard x (session_terminal session.status) _ _ λ _.
              Refines-require x (find? (has_endpoint_id endpoint_id) session.endpoints) _ _ λ e _.
                Refines-bind_quiet x _ _ (IsQuiet-authorize session endpoint_id secret)
                  λ _ _ _. Refines-quiet x _ (IsQuiet-pure tt)
