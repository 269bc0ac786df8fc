-- ===== src/ControlPlane/Tasks.antt =====
-- internal/controlplane/session.go: `Task.Terminal`, `Task.Transition`; store.go: `findTaskLocked`.
pub mod Times
use Prim.Native.String.{◌++◌}
use remote_dev_skillkit.Prelude.{
  ℕ, String, Bool, true, false, ◌||◌, Option, none, some, if◌then◌else◌, ◌==◌, string_eq,
  find_indexed, pos,
}
use remote_dev_skillkit.Exec.{Result, ok, err, require, ◌>>=◌, pure}
use remote_dev_skillkit.ControlPlane.Protocol.{
  TaskStatus, ErrorCode, Failure, protocol, task_status_eq,
}
use remote_dev_skillkit.ControlPlane.Session.{Time, Task, Session}
use remote_dev_skillkit.ControlPlane.Store.{Store, find_session, refusal}

unfoldable pub is_terminal : TaskStatus → Bool
is_terminal TaskStatus.succeeded = true
is_terminal TaskStatus.failed = true
is_terminal TaskStatus.canceled = true
is_terminal _ = false

-- `validTaskTransition`
unfoldable pub valid_task_transition : TaskStatus → TaskStatus → Bool
valid_task_transition TaskStatus.queued to = to == TaskStatus.offered || to == TaskStatus.canceled
valid_task_transition TaskStatus.offered to = to == TaskStatus.running || to == TaskStatus.canceled
valid_task_transition TaskStatus.running to =
    to == TaskStatus.paused
    || to == TaskStatus.succeeded
    || to == TaskStatus.failed
    || to == TaskStatus.canceled
valid_task_transition TaskStatus.paused to =
    to == TaskStatus.running
    || to == TaskStatus.succeeded
    || to == TaskStatus.failed
    || to == TaskStatus.canceled
valid_task_transition _ to = false

unfoldable pub status_text : TaskStatus → String
status_text TaskStatus.queued = "queued"
status_text TaskStatus.offered = "offered"
status_text TaskStatus.running = "running"
status_text TaskStatus.paused = "paused"
status_text TaskStatus.succeeded = "succeeded"
status_text TaskStatus.failed = "failed"
status_text TaskStatus.canceled = "canceled"
status_text (TaskStatus.other s) = s

transition_error : String → String → String → Failure
transition_error message summary action = protocol (record {
  schema_version = "rdev.error.v1";
  code = ErrorCode.task_already_terminal;
  message = message;
  recoverable = false;
  retry_after_ms = pos 0;
  user_summary = summary;
  agent_next_action = action;
  details = none;
})

unfoldable pub already_terminal : Failure
unfolding transition_error
already_terminal =
    transition_error "task is already terminal" "The task has already finished."
      "do not reuse a terminal task; create a new task if needed"

unfoldable pub invalid_transition : TaskStatus → TaskStatus → Failure
unfolding transition_error status_text
invalid_transition from to =
    transition_error ("invalid task transition " ++ status_text from ++ " -> " ++ status_text to)
      "The requested task state change is invalid."
      "refresh the task snapshot before sending another state change"

abbrev started : Option Time → TaskStatus → Time → Option Time
started (some t) next now = some t
started none next now = if next == TaskStatus.running then some now else none

-- The task after a step that is allowed.
abbrev pub moved : Task → TaskStatus → Time → Task
moved t next now = record t {
  status = next;
  started_at = started t.started_at next now;
  ended_at = if is_terminal next then some now else t.ended_at;
}

-- `Task.Transition`
unfoldable pub transition : Task → TaskStatus → Time → Result Task
unfolding is_terminal valid_task_transition
transition t next now =
    if is_terminal t.status
    then err already_terminal
    else if valid_task_transition t.status next
    then ok (moved t next now)
    else err (invalid_transition t.status next)

abbrev pub has_id : String → Task → Bool
has_id task_id t = t.id == task_id

abbrev pub task_not_found : Failure
task_not_found = refusal ErrorCode.task_not_found "task not found" true

-- `findTaskLocked`: the task, its index and its session.
unfoldable pub find_task_locked : String → String → Store (Task × ℕ × Session)
find_task_locked session_id task_id = do
  session ← find_session session_id
  (task, index) ← require (find_indexed (has_id task_id) 0 session.tasks) task_not_found
  pure (task, index, session)
