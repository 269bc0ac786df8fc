-- ===== src/ControlPlane/Machine.antt =====
-- internal/controlplane/store.go: the calls of the control plane as data, and any run of them.
use remote_dev_skillkit.Prelude.{ℕ, ℤ, String, List, [], ◌∷◌}
use remote_dev_skillkit.ControlPlane.Protocol.{Payload}
use remote_dev_skillkit.ControlPlane.Session.{
  SessionSpec, EndpointSpec, EventCursor, Event, TaskSpec, ArtifactRef,
}
use remote_dev_skillkit.ControlPlane.World.{World}
use remote_dev_skillkit.ControlPlane.Store.{State}
use remote_dev_skillkit.ControlPlane.Lifecycle.{create_session, close_session, revoke_session}
use remote_dev_skillkit.ControlPlane.Join.{join_session}
use remote_dev_skillkit.ControlPlane.Work.{
  append_event, append_event_batch, submit_task, cancel_task, mark_task_running, complete_task,
}
use remote_dev_skillkit.ControlPlane.Artifacts.{
  upsert_artifact, set_session_notify_url, compact_events,
}
use remote_dev_skillkit.ControlPlane.Reads.{
  read_session, events_after, peek_events_after, events_after_for_agent, validate_lease,
}
use remote_dev_skillkit.Prelude.{Bool}
use remote_dev_skillkit.ControlPlane.Hosts.{rename_host, set_event_hook}
use remote_dev_skillkit.ControlPlane.Writes.Hosts.{rename_host-Refines, set_event_hook-Refines}
use remote_dev_skillkit.ControlPlane.Writes.{Writes, start, Writes-trans, IsKeyed, Writes-IsKeyed}
use remote_dev_skillkit.ControlPlane.Writes.Lifecycle.{
  create_session-Refines, close_session-Refines, revoke_session-Refines,
}
use remote_dev_skillkit.ControlPlane.Writes.Work.{append_event-Refines, append_event_batch-Refines}
use remote_dev_skillkit.ControlPlane.Writes.Results.{
  submit_task-Refines, cancel_task-Refines, mark_task_running-Refines, complete_task-Refines,
}
use remote_dev_skillkit.ControlPlane.Writes.Joining.{join_session-Refines}
use remote_dev_skillkit.ControlPlane.Writes.Reading.{
  read_session-Refines, events_after-Refines, peek_events_after-Refines,
  events_after_for_agent-Refines, validate_lease-Refines,
}
use remote_dev_skillkit.ControlPlane.Writes.Artifacts.{
  upsert_artifact-Refines, set_session_notify_url-Refines, compact_events-Refines,
}

-- A call of a method that holds the mutex from its start to its end. `JoinByCode` and `ResumeTask`
-- take it again for a `join_session` and a `submit_task`.
pub data Call : Type 0 where
  create : SessionSpec → Call
  read : String → Call
  join : String → EndpointSpec → Call
  append : String → Event → Call
  append_batch : String → List Event → Call
  events : String → EventCursor → ℤ → Call
  peek : String → EventCursor → ℤ → Call
  events_for_agent : String → ℕ → ℤ → Call
  validate : String → String → String → Call
  submit : String → TaskSpec → Call
  cancel : String → String → String → String → Call
  mark_running : String → String → Call
  complete : String → String → Payload → Call
  artifact : String → ArtifactRef → Call
  notify_url : String → String → Call
  compact : String → ℕ → Call
  close : String → Call
  revoke : String → Call
  rename : String → String → Call
  set_hook : Bool → Call

module _ ⦃w : World⦄ where
  -- The state after a call, whatever it answers.
  unfoldable pub step : Call → State → State
  step (create spec) s = (create_session spec s).1
  step (read session_id) s = (read_session session_id s).1
  step (join session_id spec) s = (join_session session_id spec s).1
  step (append session_id event) s = (append_event session_id event s).1
  step (append_batch session_id batch) s = (append_event_batch session_id batch s).1
  step (events session_id cursor limit) s = (events_after session_id cursor limit s).1
  step (peek session_id cursor limit) s = (peek_events_after session_id cursor limit s).1
  step (events_for_agent session_id seq limit) s = (events_after_for_agent session_id seq limit s).1
  step (validate session_id endpoint_id secret) s =
      (validate_lease session_id endpoint_id secret s).1
  step (submit session_id spec) s = (submit_task session_id spec s).1
  step (cancel session_id task_id reason key) s = (cancel_task session_id task_id reason key s).1
  step (mark_running session_id task_id) s = (mark_task_running session_id task_id s).1
  step (complete session_id task_id result) s = (complete_task session_id task_id result s).1
  step (artifact session_id ref) s = (upsert_artifact session_id ref s).1
  step (notify_url session_id url) s = (set_session_notify_url session_id url s).1
  step (compact session_id seq) s = (compact_events session_id seq s).1
  step (close session_id) s = (close_session session_id s).1
  step (revoke session_id) s = (revoke_session session_id s).1
  step (rename host_id name) s = (rename_host host_id name s).1
  step (set_hook b) s = (set_event_hook b s).1

  unfoldable pub run : List Call → State → State
  unfolding step
  run [] s = s
  run (c ∷ cs) s = run cs (step c s)

  -- Every call, with whatever outcome, is a sequence of steps of the relation.
  pub step-Writes : (c : Call) (s : State) → IsKeyed s.store → Writes s.store (step c s).store
  unfolding step
  step-Writes (create spec) s k = (create_session-Refines s.store spec).at k s
  step-Writes (read session_id) s k = (read_session-Refines s.store session_id).at k s
  step-Writes (join session_id spec) s k = (join_session-Refines s.store session_id spec).at k s
  step-Writes (append session_id event) s k = (append_event-Refines s.store session_id event).at k s
  step-Writes (append_batch session_id batch) s k =
      (append_event_batch-Refines s.store session_id batch).at k s
  step-Writes (events session_id cursor limit) s k =
      (events_after-Refines s.store session_id cursor limit).at k s
  step-Writes (peek session_id cursor limit) s k =
      (peek_events_after-Refines s.store session_id cursor limit).at k s
  step-Writes (events_for_agent session_id seq limit) s k =
      (events_after_for_agent-Refines s.store session_id seq limit).at k s
  step-Writes (validate session_id endpoint_id secret) s k =
      (validate_lease-Refines s.store session_id endpoint_id secret).at k s
  step-Writes (submit session_id spec) s k = (submit_task-Refines s.store session_id spec).at k s
  step-Writes (cancel session_id task_id reason key) s k =
      (cancel_task-Refines s.store session_id task_id reason key).at k s
  step-Writes (mark_running session_id task_id) s k =
      (mark_task_running-Refines s.store session_id task_id).at k s
  step-Writes (complete session_id task_id result) s k =
      (complete_task-Refines s.store session_id task_id result).at k s
  step-Writes (artifact session_id ref) s k =
      (upsert_artifact-Refines s.store session_id ref).at k s
  step-Writes (notify_url session_id url) s k =
      (set_session_notify_url-Refines s.store session_id url).at k s
  step-Writes (compact session_id seq) s k = (compact_events-Refines s.store session_id seq).at k s
  step-Writes (close session_id) s k = (close_session-Refines s.store session_id).at k s
  step-Writes (revoke session_id) s k = (revoke_session-Refines s.store session_id).at k s
  step-Writes (rename host_id name) s k = (rename_host-Refines s.store host_id name).at k s
  step-Writes (set_hook b) s k = (set_event_hook-Refines s.store b).at k s

  pub run-Writes : (cs : List Call) (s : State) → IsKeyed s.store → Writes s.store (run cs s).store
  unfolding run
  run-Writes [] s k = start
  run-Writes (c ∷ cs) s k =
      let first = step-Writes c s k in
      Writes-trans first (run-Writes cs (step c s) (Writes-IsKeyed first k))
