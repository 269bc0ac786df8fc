-- ===== src/ControlPlane/Writes/Work.antt =====
-- internal/controlplane/store.go: the calls that append events, a batch, or progress.
use remote_dev_skillkit.Prelude.{String, true, ◌||◌, List, [], ◌∷◌, string_eq, ◌==◌, ◌!=◌}
use remote_dev_skillkit.Prelude.{length, pos}
use remote_dev_skillkit.Prelude.Int.{ltb_ℤ}
use remote_dev_skillkit.ControlPlane.Tasks.{is_terminal}
use remote_dev_skillkit.ControlPlane.Protocol.{TaskStatus, EventType, task_status_eq, event_type_eq}
use remote_dev_skillkit.ControlPlane.Session.{Event}
use remote_dev_skillkit.ControlPlane.World.{World}
use remote_dev_skillkit.ControlPlane.Store.{MemoryStore}
use remote_dev_skillkit.ControlPlane.Work.{
  put_if_resumed, append_progress, append_event, append_all, append_event_batch,
}
use remote_dev_skillkit.ControlPlane.Writes.Rules.{
  Refines, Refines-quiet, IsQuiet-pure, Refines-bind_quiet, Refines-bind, Refines-last_put,
  IsQuiet-session_expired, Refines-append, Refines-last_append,
}
use remote_dev_skillkit.ControlPlane.Writes.Guards.{Refines-guard, Refines-find_session, Refines-if}
use remote_dev_skillkit.ControlPlane.Writes.Lifecycle.{refuse_expired-Refines}
use remote_dev_skillkit.ControlPlane.Writes.Tasks.{
  replace-Write, find_task-Refines, refuse_if_expired-Refines, Refines-advance,
}

module _ ⦃w : World⦄ where
  append_progress-Refines :
      (x : MemoryStore) (session_id : String) (event : Event)
      → Refines x (append_progress session_id event)
  unfolding append_progress
  append_progress-Refines x session_id event =
      find_task-Refines x session_id event.task_id _ λ session t i found hit.
        Refines-guard x (event.from_endpoint_id != t.target_endpoint_id) _ _ λ _.
          Refines-guard x (is_terminal t.status) _ _ λ _.
            Refines-advance x (t.status == TaskStatus.offered || t.status == TaskStatus.paused)
              TaskStatus.running t _
              λ u step. Refines-append x session_id event true _ λ e y a.
                let (session', found', parts) = a.1 session found in
                Refines-bind y (put_if_resumed t u session_id i) _
                  (Refines-if y (t.status == TaskStatus.offered || t.status == TaskStatus.paused) _
                    _
                    (λ _. Refines-last_put y _ (
                      replace-Write session_id event.task_id y session' t u i found'
                        (rw parts.tasks hit) step))
                    (λ _. Refines-quiet y _ (IsQuiet-pure tt)))
                  λ z _ _. Refines-quiet z _ (IsQuiet-pure e)

  pub append_event-Refines :
      (x : MemoryStore) (session_id : String) (event : Event)
      → Refines x (append_event session_id event)
  unfolding append_event
  append_event-Refines x session_id event = refuse_if_expired-Refines x session_id _ (
      Refines-if x (event.type != EventType.task_progress) _ _
        (λ _. Refines-last_append x session_id event true)
        (λ _. append_progress-Refines x session_id event))

  append_all-Refines :
      (x : MemoryStore) (session_id : String) (batch : List Event)
      → Refines x (append_all session_id batch)
  unfolding append_all
  append_all-Refines x session_id [] = Refines-quiet x _ (IsQuiet-pure [])
  append_all-Refines x session_id (event ∷ rest) =
      Refines-append x session_id event true _ λ next y _.
        Refines-bind y (append_all session_id rest) _ (append_all-Refines y session_id rest)
          λ z appended _. Refines-quiet z _ (IsQuiet-pure (next ∷ appended))

  pub append_event_batch-Refines :
      (x : MemoryStore) (session_id : String) (batch : List Event)
      → Refines x (append_event_batch session_id batch)
  unfolding append_event_batch
  append_event_batch-Refines x session_id batch =
      Refines-find_session x session_id _ λ session found.
        Refines-bind_quiet x _ _ (IsQuiet-session_expired session) λ expired _ _.
          refuse_expired-Refines x expired session_id _ λ _.
            Refines-guard x (ltb_ℤ session.limits.event_batch (pos (length batch))) _ _
              λ _. append_all-Refines x session_id batch
