-- ===== src/ControlPlane/Writes/Lifecycle.antt =====
-- internal/controlplane/store.go: creating, closing and revoking a session, and its running out.
use remote_dev_skillkit.Prelude.{
  String, Bool, true, false, Option, none, some, List, [], ◌≡◌, refl, map, string_eq, ◌==◌, get,
  get_or_of-get, is_some, arith,
}
use remote_dev_skillkit.Exec.{◌>>=◌}
use remote_dev_skillkit.ControlPlane.Protocol.{
  SessionStatus, ErrorCode, session_terminal, session_status_eq,
}
use remote_dev_skillkit.ControlPlane.Session.{Time, Session, SessionSpec, Task}
use remote_dev_skillkit.ControlPlane.World.{World}
use remote_dev_skillkit.ControlPlane.Store.{
  MemoryStore, Store, State, refusal, no_session, no_event, now, session_expired,
}
use remote_dev_skillkit.ControlPlane.Lifecycle.{
  end_session, canceled_at, expire_now, expire_over, expire_session_locked, refuse_expired,
  terminate_session_locked, close_session, revoke_session, store_new_session_locked, create_session,
  session_of, expiry_event, log_expiry,
}
use remote_dev_skillkit.ControlPlane.Append.{append_event_locked}
use remote_dev_skillkit.ControlPlane.Writes.{
  Write, Writes-trans, Writes-IsKeyed, update, create, TasksStep, same, cancel_all, EndpointsStep,
}
use remote_dev_skillkit.ControlPlane.Writes.Rules.{
  Refines, Appends, Refines-quiet, IsQuiet-pure, Refines-bind_quiet, Refines-put, Refines-last_put,
  IsQuiet-now, IsQuiet-new_id, IsQuiet-new_join_code, IsQuiet-session_expired, append-Appends,
  Refines-append,
}
use remote_dev_skillkit.ControlPlane.Writes.Guards.{
  Refines-guard, Refines-find_session, Refines-read, Refines-if, Refines-fails,
}

-- Ending a session is one step.
pub end-Write :
    (session_id : String) (status : SessionStatus) (tasks : List Task → List Task) (t : Time)
    (x : MemoryStore) (session : Session)
    → get session_id x.sessions ≡ some session
    → session_terminal status ≡ true
    → TasksStep session.endpoints session.tasks (tasks session.tasks)
    → Write x (end_session session_id status tasks t x)
unfolding end_session
end-Write session_id status tasks t x session found ended step =
    rw (get_or_of-get session_id no_session session x.sessions found) (
      update session_id session _ found
        (record {
          id = refl;
          capabilities = refl;
          join_policy = refl;
          last_seq = refl;
          terminal = λ _. ended;
          tasks = step;
          endpoints = EndpointsStep.revoke t refl;
        })
        refl refl)

module _ ⦃w : World⦄ where
  dropped_append-Refines :
      {B : Type 0} (x : MemoryStore) (session_id : String) (f : Unit {0} → Store B)
      → ((y : MemoryStore) → Appends session_id x y → Refines y (f tt))
      → Refines x (log_expiry session_id >>= f)
  unfolding log_expiry
  dropped_append-Refines x session_id f h = record {
    at = λ k s.
        let a = append-Appends session_id expiry_event false (record s { store = x }) in
        let t : State =
          (append_event_locked session_id expiry_event false (record s { store = x })).1 in
        Writes-trans a.0 ((h t.store a).at (Writes-IsKeyed a.0 k) t);
  }

  expire_now-Refines :
      (x : MemoryStore) (session_id : String) (session : Session)
      → get session_id x.sessions ≡ some session
      → Refines x (expire_now session_id)
  unfolding expire_now session_terminal
  expire_now-Refines x session_id session found = Refines-bind_quiet x now _ IsQuiet-now λ t _ _.
      dropped_append-Refines x session_id _ λ y a.
        let (session', found', parts) = a.1 session found in
        Refines-last_put y _ (
          end-Write session_id SessionStatus.closed (map (canceled_at t)) t y session' found' refl
            (cancel_all t refl))

  expire_over-Refines :
      (x : MemoryStore) (session_id : String) (o : Option Session)
      → get session_id x.sessions ≡ o
      → Refines x (expire_over o session_id)
  expire_over-Refines x session_id none found = Refines-quiet x _ (IsQuiet-pure tt)
  expire_over-Refines x session_id (some session) found =
      Refines-if x (session_terminal session.status) _ _ (λ _. Refines-quiet x _ (IsQuiet-pure tt))
        λ _.
          Refines-bind_quiet x (session_expired session) _ (IsQuiet-session_expired session)
            λ expired _ _.
              Refines-if x expired _ _ (λ _. expire_now-Refines x session_id session found)
                (λ _. Refines-quiet x _ (IsQuiet-pure tt))

  pub expire_session_locked-Refines :
      (x : MemoryStore) (session_id : String) → Refines x (expire_session_locked session_id)
  unfolding expire_session_locked
  expire_session_locked-Refines x session_id =
      Refines-read x (λ m. get session_id m.sessions) (λ o. expire_over o session_id)
        (expire_over-Refines x session_id (get session_id x.sessions) refl)

  pub refuse_expired-Refines :
      {B : Type 0} (x : MemoryStore) (expired : Bool) (session_id : String) (f : Unit {0} → Store B)
      → (expired ≡ false → Refines x (f tt))
      → Refines x (refuse_expired expired session_id >>= f)
  unfolding refuse_expired
  refuse_expired-Refines x false session_id f h = h refl
  refuse_expired-Refines x true session_id f h =
      Refines-fails x _ f (refusal ErrorCode.terminal_session "session is expired" false)
        (expire_session_locked-Refines x session_id)

  terminate-Refines :
      (x : MemoryStore) (session_id : String) (status : SessionStatus) (key : String)
      → session_terminal status ≡ true
      → Refines x (terminate_session_locked session_id status key)
  unfolding terminate_session_locked
  terminate-Refines x session_id status key ended =
      Refines-find_session x session_id _ λ session found.
        Refines-append x session_id _ true _ λ event y a.
          let (session', found', parts) = a.1 session found in
          Refines-bind_quiet y now _ IsQuiet-now λ t _ _.
            Refines-put y _ _
              (end-Write session_id status (λ tasks. tasks) t y session' found' ended (same refl))
              (Refines-quiet _ _ (record { at = λ s. refl }))

  pub close_session-Refines :
      (x : MemoryStore) (session_id : String) → Refines x (close_session session_id)
  unfolding close_session session_terminal
  close_session-Refines x session_id = terminate-Refines x session_id SessionStatus.closed _ refl

  pub revoke_session-Refines :
      (x : MemoryStore) (session_id : String) → Refines x (revoke_session session_id)
  unfolding revoke_session session_terminal
  revoke_session-Refines x session_id = Refines-find_session x session_id _ λ session found.
      Refines-if x (session.status == SessionStatus.revoked) _ _
        (λ _. Refines-quiet x _ (IsQuiet-pure (session, no_event)))
        (λ _. terminate-Refines x session_id SessionStatus.revoked _ refl)

  store_new-Refines :
      (x : MemoryStore) (session : Session)
      → session.last_seq ≡ 0
      → session.tasks ≡ []
      → session.endpoints ≡ []
      → Refines x (store_new_session_locked session)
  unfolding store_new_session_locked
  store_new-Refines x session seq tasks endpoints = record {
    at =
        (Refines-guard x (is_some (get session.id x.sessions)) _ _ λ absent.
          Refines-guard x (is_some (get session.join_code x.join_codes)) _ _ λ _.
            Refines-put x _ _ (create session (ground arith) seq tasks endpoints refl refl)
              (Refines-quiet _ _ (IsQuiet-pure session))).at;
  }

  pub create_session-Refines :
      (x : MemoryStore) (spec : SessionSpec) → Refines x (create_session spec)
  unfolding create_session session_of
  create_session-Refines x spec = Refines-bind_quiet x now _ IsQuiet-now λ t _ _.
      Refines-bind_quiet x _ _ (IsQuiet-new_id "ses") λ id _ _.
        Refines-bind_quiet x _ _ IsQuiet-new_join_code
          λ code _ _. store_new-Refines x (session_of spec id code t) refl refl refl
