-- ===== src/ControlPlane/Writes/Results.antt =====
-- internal/controlplane/store.go: offering, canceling, starting and completing a task.
use Prim.Native.String.{◌++◌ as ◌<>◌}
use remote_dev_skillkit.Prelude.{
  ℕ, String, Bool, true, false, not, Option, none, some, ◌≡◌, refl, string_eq, ◌==◌, ◌!=◌, get,
  find_indexed, if◌then◌else◌, get_or_of-get,
}
use remote_dev_skillkit.Exec.{pure, ◌>>=◌}
use remote_dev_skillkit.ControlPlane.Protocol.{
  TaskStatus, Payload, task_status_eq, session_terminal,
}
use remote_dev_skillkit.ControlPlane.Session.{
  Time, Session, Endpoint, Event, Task, TaskSpec, TaskRecord,
}
use remote_dev_skillkit.ControlPlane.World.{World}
use remote_dev_skillkit.ControlPlane.Store.{MemoryStore, Store, now, new_id, no_session}
use remote_dev_skillkit.ControlPlane.Tasks.{transition, is_terminal, has_id}
use remote_dev_skillkit.ControlPlane.Endpoints.{route_task}
use remote_dev_skillkit.ControlPlane.Endpoints.Routing.{IsRoute, route_task-IsRoute}
use remote_dev_skillkit.ControlPlane.Work.{
  put_task, submit_new, submit_task, submit_over, cancel_new, cancel_task, cancel_over,
  mark_task_running, add_task, complete_new, complete_task, complete_over, in_terminal_grace,
  ended_long_ago, within_grace, attempt_of, result_status, result_text, offered_task,
}
use remote_dev_skillkit.ControlPlane.Writes.{
  Write, quiet, update, Advances, stays, moves, advance, offer,
}
use remote_dev_skillkit.ControlPlane.Writes.Rules.{
  Refines, IsQuiet, Refines-quiet, IsQuiet-pure, IsQuiet-bind, Refines-bind_quiet, Refines-put,
  IsQuiet-now, IsQuiet-new_id, IsQuiet-session_expired, Refines-append,
}
use remote_dev_skillkit.ControlPlane.Writes.Guards.{
  Refines-lift, Refines-guard, Refines-find_session, Refines-read,
}
use remote_dev_skillkit.ControlPlane.Writes.Lifecycle.{refuse_expired-Refines}
use remote_dev_skillkit.ControlPlane.Writes.Tasks.{
  tasks-Updates, replace-Write, find_task-Refines, refuse_if_expired-Refines, Refines-advance,
  IsQuiet-task_and_event,
}

add-Write :
    (session_id key : String) (task : Task) (event : Event) (x : MemoryStore) (session : Session)
    (e : Endpoint)
    → get session_id x.sessions ≡ some session
    → task.status ≡ TaskStatus.offered
    → task.target_endpoint_id ≡ e.id
    → IsRoute session.endpoints task.capabilities e
    → Write x (add_task session_id task key event x)
unfolding add_task
add-Write session_id key task event x session e found status target r =
    rw (get_or_of-get session_id no_session session x.sessions found) (
      update session_id session _ found
        (tasks-Updates session _ (offer task e status target r refl)) refl refl)

module _ ⦃w : World⦄ where
  IsQuiet-attempt_of : (spec : TaskSpec) → IsQuiet (attempt_of spec)
  IsQuiet-attempt_of spec = if_quiet (spec.attempt_id == "")
    where
      if_quiet : (b : Bool) → IsQuiet (if b then new_id "attempt" else pure spec.attempt_id)
      if_quiet true = IsQuiet-new_id "attempt"
      if_quiet false = IsQuiet-pure spec.attempt_id

  submit_new-Refines :
      (x : MemoryStore) (session_id : String) (session : Session) (spec : TaskSpec)
      → get session_id x.sessions ≡ some session
      → Refines x (submit_new session_id session spec)
  unfolding submit_new
  submit_new-Refines x session_id session spec found =
      Refines-lift x (route_task session spec) _ λ target routed.
        Refines-bind_quiet x _ _ (IsQuiet-new_id "task") λ task_id _ _.
          Refines-bind_quiet x _ _ (IsQuiet-attempt_of spec) λ attempt_id _ _.
            Refines-bind_quiet x now _ IsQuiet-now λ t _ _.
              Refines-append x session_id _ true _ λ event y a.
                let (session', found', parts) = a.1 session found in
                let task = offered_task session_id spec target task_id attempt_id t in
                Refines-put y _ _
                  (add-Write session_id _ task event y session' target found' refl refl
                    (rw parts.endpoints (route_task-IsRoute session spec target routed)))
                  (Refines-quiet _ _ (IsQuiet-pure (task, event)))

  submit_over-Refines :
      (x : MemoryStore) (o : Option TaskRecord) (session_id : String) (session : Session)
      (spec : TaskSpec)
      → get session_id x.sessions ≡ some session
      → Refines x (submit_over o session_id session spec)
  submit_over-Refines x none session_id session spec found =
      submit_new-Refines x session_id session spec found
  submit_over-Refines x (some r) session_id session spec found =
      Refines-quiet x _ (IsQuiet-task_and_event session_id r)

  pub submit_task-Refines :
      (x : MemoryStore) (session_id : String) (spec : TaskSpec)
      → Refines x (submit_task session_id spec)
  unfolding submit_task
  submit_task-Refines x session_id spec = Refines-find_session x session_id _ λ session found.
      Refines-bind_quiet x _ _ (IsQuiet-session_expired session) λ expired _ _.
        refuse_expired-Refines x expired session_id _ λ _.
          Refines-guard x (session_terminal session.status) _ _ λ _.
            Refines-read x
              (λ m. get (session_id <> ":" <> "task:" <> spec.idempotency_key) m.task_idempotency)
              (λ o. submit_over o session_id session spec)
              (submit_over-Refines x _ session_id session spec found)

  -- What the calls that change one task do once it has its new state.
  put_task-Refines :
      {B : Type 0} (x : MemoryStore) (session_id task_id : String) (session : Session) (t u : Task)
      (i : ℕ) (f : Unit {0} → Store B)
      → get session_id x.sessions ≡ some session
      → find_indexed (has_id task_id) 0 session.tasks ≡ some (t, i)
      → Advances t u
      → ((y : MemoryStore) → Refines y (f tt))
      → Refines x (put_task session_id i u >>= f)
  put_task-Refines x session_id task_id session t u i f found hit step h =
      Refines-put x _ _ (replace-Write session_id task_id x session t u i found hit step) (h _)

  cancel_new-Refines :
      (x : MemoryStore) (session_id task_id reason key : String)
      → Refines x (cancel_new session_id task_id reason key)
  unfolding cancel_new
  cancel_new-Refines x session_id task_id reason key =
      find_task-Refines x session_id task_id _ λ session t i found hit.
        Refines-guard x (is_terminal t.status) _ _ λ _.
          Refines-bind_quiet x now _ IsQuiet-now λ at _ _.
            Refines-lift x (transition t TaskStatus.canceled at) _ λ u moved.
              Refines-append x session_id _ true _ λ event y a.
                let (session', found', parts) = a.1 session found in
                put_task-Refines y session_id task_id session' t u i _ found' (rw parts.tasks hit)
                  (moves TaskStatus.canceled at stays moved)
                  λ z.
                    Refines-put z _ _ (quiet refl refl)
                      (Refines-quiet _ _ (IsQuiet-pure (u, event)))

  cancel_over-Refines :
      (x : MemoryStore) (o : Option TaskRecord) (session_id task_id reason key : String)
      → Refines x (cancel_over o session_id task_id reason key)
  cancel_over-Refines x none session_id task_id reason key =
      cancel_new-Refines x session_id task_id reason key
  cancel_over-Refines x (some r) session_id task_id reason key =
      Refines-quiet x _ (IsQuiet-task_and_event session_id r)

  pub cancel_task-Refines :
      (x : MemoryStore) (session_id task_id reason key : String)
      → Refines x (cancel_task session_id task_id reason key)
  unfolding cancel_task
  cancel_task-Refines x session_id task_id reason key = refuse_if_expired-Refines x session_id _ (
      Refines-read x
        (λ m. get (session_id <> ":cancel:" <> task_id <> ":" <> key) m.cancel_idempotency)
        (λ o. cancel_over o session_id task_id reason key)
        (cancel_over-Refines x _ session_id task_id reason key))

  pub mark_task_running-Refines :
      (x : MemoryStore) (session_id task_id : String)
      → Refines x (mark_task_running session_id task_id)
  unfolding mark_task_running
  mark_task_running-Refines x session_id task_id = refuse_if_expired-Refines x session_id _ (
      find_task-Refines x session_id task_id _ λ session t i found hit.
        Refines-bind_quiet x now _ IsQuiet-now λ at _ _.
          Refines-lift x (transition t TaskStatus.running at) _ λ u moved.
            Refines-put x _ _
              (update session_id session _ found
                (tasks-Updates session _
                  (advance task_id t u i hit (moves TaskStatus.running at stays moved) refl))
                refl refl)
              (Refines-quiet _ _ (IsQuiet-pure u)))

  IsQuiet-within_grace : (o : Option Time) (session : Session) → IsQuiet (within_grace o session)
  IsQuiet-within_grace none session = IsQuiet-pure false
  IsQuiet-within_grace (some closed) session = IsQuiet-bind now _ IsQuiet-now λ t. IsQuiet-pure _

  IsQuiet-ended_long_ago : (session : Session) → IsQuiet (ended_long_ago session)
  unfolding in_terminal_grace
  IsQuiet-ended_long_ago session = if_quiet (session_terminal session.status)
    where
      if_quiet :
          (b : Bool)
          → IsQuiet
              (if b then (do grace ← in_terminal_grace session; pure (not grace)) else pure false)
      if_quiet true =
          IsQuiet-bind (in_terminal_grace session) _
            (record {
              at = λ s. (IsQuiet-within_grace (get session.id s.terminal_at) session).at s;
            })
            λ grace. IsQuiet-pure (not grace)
      if_quiet false = IsQuiet-pure false

  module _ (session_id task_id : String) (result : Payload) (t : Task) (i : ℕ) (session : Session)
      (attempt_id idempotency_key key : String) (x : MemoryStore)
      (found : get session_id x.sessions ≡ some session)
      (hit : find_indexed (has_id task_id) 0 session.tasks ≡ some (t, i)) where
    complete_new-Refines :
        Refines x
          (complete_new session_id task_id result t i session attempt_id idempotency_key key)
    unfolding complete_new
    complete_new-Refines = Refines-bind_quiet x _ _ (IsQuiet-ended_long_ago session) λ late _ _.
        Refines-guard x late _ _ λ _. Refines-guard x (is_terminal t.status) _ _ λ _.
          Refines-guard x (attempt_id != t.attempt_id) _ _ λ _.
            Refines-advance x (t.status == TaskStatus.offered) TaskStatus.running t _ λ u step.
              Refines-bind_quiet x now _ IsQuiet-now λ at _ _.
                Refines-lift x (transition u (result_status (result_text result "status")) at) _
                  λ v moved. Refines-append x session_id _ true _ λ event y a.
                    let (session', found', parts) = a.1 session found in
                    put_task-Refines y session_id task_id session' t v i _ found'
                      (rw parts.tasks hit) (moves _ at step moved)
                      λ z.
                        Refines-put z _ _ (quiet refl refl)
                          (Refines-quiet _ _ (IsQuiet-pure (v, event)))

    complete_over-Refines :
        (o : Option TaskRecord)
        → Refines x
            (complete_over o session_id task_id result t i session attempt_id idempotency_key key)
    complete_over-Refines none = complete_new-Refines
    complete_over-Refines (some r) = Refines-quiet x _ (IsQuiet-task_and_event session_id r)

  pub complete_task-Refines :
      (x : MemoryStore) (session_id task_id : String) (result : Payload)
      → Refines x (complete_task session_id task_id result)
  unfolding complete_task
  complete_task-Refines x session_id task_id result = refuse_if_expired-Refines x session_id _ (
      find_task-Refines x session_id task_id _ λ session t i found hit. record {
        at = λ k s.
            (complete_over-Refines session_id task_id result t i session _ _ _ x found hit _).at k
              s;
      })
