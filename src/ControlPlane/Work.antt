-- ===== src/ControlPlane/Work.antt =====
-- internal/controlplane/store.go: events, tasks and artifacts of a session.
use Prim.Native.String.{◌++◌ as ◌<>◌}
use remote_dev_skillkit.Prelude.{
  ℕ, String, Bool, true, false, not, ◌||◌, Option, none, some, List, [], ◌∷◌, ◌++◌, length, set,
  find?, if◌then◌else◌, ◌==◌, ◌!=◌, string_eq, nat_eq, get, get_or, put, ℤ, pos,
}
use remote_dev_skillkit.Prelude.Int.{int_eq, ltb_ℤ, ◌+ℤ◌}
use remote_dev_skillkit.Exec.{pure, fail_if, lift, require, ◌>>=◌, ◌>>◌}
use remote_dev_skillkit.ControlPlane.Protocol.{
  EventType, TaskStatus, ErrorCode, Failure, text, Payload, event_type_eq, task_status_eq,
  session_terminal,
}
use remote_dev_skillkit.ControlPlane.Session.{
  Time, Session, Event, Endpoint, Task, TaskSpec, TaskRecord,
}
use remote_dev_skillkit.ControlPlane.World.{World, after, millis}
use remote_dev_skillkit.ControlPlane.Store.{
  MemoryStore, Store, refusal, put_store, find_session, no_session, no_event, now, new_id,
  session_expired,
}
use remote_dev_skillkit.ControlPlane.Append.{append_event_locked, string_of}
use remote_dev_skillkit.ControlPlane.Lifecycle.{refuse_expired}
use remote_dev_skillkit.ControlPlane.Tasks.{is_terminal, transition, find_task_locked}
use remote_dev_skillkit.ControlPlane.Endpoints.{route_task}

abbrev pub put_session : String → Session → Store (Unit {0})
put_session session_id session =
    put_store (λ m. record m { sessions = put session_id session m.sessions })

-- `session.Tasks[index] = task` in the session as it is stored now.
unfoldable pub replace_task : String → ℕ → Task → MemoryStore → MemoryStore
replace_task session_id index task m =
    let session = get_or session_id no_session m.sessions in
    record m {
      sessions =
          put session_id (record session { tasks = set session.tasks index task }) m.sessions;
    }

abbrev pub put_task : String → ℕ → Task → Store (Unit {0})
put_task session_id index task = put_store (replace_task session_id index task)

-- A new task of the session as it is stored now, and its idempotency record.
unfoldable pub add_task : String → Task → String → Event → MemoryStore → MemoryStore
add_task session_id task key event m =
    let session = get_or session_id no_session m.sessions in
    record m {
      sessions = put session_id (record session { tasks = session.tasks ++ task ∷ [] }) m.sessions;
      task_idempotency =
          put key (record { task_id = task.id; event_id = event.id }) m.task_idempotency;
    }

abbrev pub task_finished : Failure
task_finished = refusal ErrorCode.task_already_terminal "task is already terminal" false

-- `taskAndEventLocked`: the task and the event of an earlier call.
unfoldable pub task_and_event_locked : String → TaskRecord → Store (Task × Event)
task_and_event_locked session_id r = do
  (task, index, session) ← find_task_locked session_id r.task_id
  event ← λ s.
      require (find? (λ (e : Event). e.id == r.event_id) (get_or session_id [] s.events))
        (refusal ErrorCode.snapshot_required "idempotent event body was compacted" true) s
  pure (task, event)

module _ ⦃w : World⦄ where
  -- `if session, ok := s.sessions[sessionID]; ok && s.sessionExpired(session) { ... }`
  abbrev pub refuse_expired_over : Option Session → String → Store (Unit {0})
  refuse_expired_over none session_id = pure tt
  refuse_expired_over (some session) session_id = do
    expired ← session_expired session
    refuse_expired expired session_id

  unfoldable pub refuse_if_expired : String → Store (Unit {0})
  refuse_if_expired session_id s = refuse_expired_over (get session_id s.sessions) session_id s

  -- A task that reports progress is running.
  abbrev pub resumed : Task → Store Task
  resumed task =
      if task.status == TaskStatus.offered || task.status == TaskStatus.paused
      then (do t ← now; lift (transition task TaskStatus.running t))
      else pure task

  abbrev pub put_if_resumed : Task → Task → String → ℕ → Store (Unit {0})
  put_if_resumed task updated session_id index =
      if task.status == TaskStatus.offered || task.status == TaskStatus.paused
      then put_task session_id index updated
      else pure tt

  unfoldable pub append_progress : String → Event → Store Event
  append_progress session_id event = do
    (task, index, session) ← find_task_locked session_id event.task_id
    fail_if (event.from_endpoint_id != task.target_endpoint_id) (
        refusal ErrorCode.unauthorized_endpoint
          "task progress must be reported by the assigned target endpoint" false)
    fail_if (is_terminal task.status) task_finished
    updated ← resumed task
    appended ← append_event_locked session_id event true
    put_if_resumed task updated session_id index
    pure appended

  -- `AppendEvent`
  unfoldable pub append_event : String → Event → Store Event
  append_event session_id event = do
    refuse_if_expired session_id
    if event.type != EventType.task_progress
        then append_event_locked session_id event true
        else append_progress session_id event

  unfoldable pub append_all : String → List Event → Store (List Event)
  append_all session_id [] = pure []
  append_all session_id (event ∷ rest) = do
    next ← append_event_locked session_id event true
    appended ← append_all session_id rest
    pure (next ∷ appended)

  -- `AppendEventBatch`
  unfoldable pub append_event_batch : String → List Event → Store (List Event)
  append_event_batch session_id batch = do
    session ← find_session session_id
    expired ← session_expired session
    refuse_expired expired session_id
    fail_if (ltb_ℤ session.limits.event_batch (pos (length batch)))
        (refusal ErrorCode.too_many_events "event batch is too large" true)
    append_all session_id batch

  abbrev pub attempt_of : TaskSpec → Store String
  attempt_of spec = if spec.attempt_id == "" then new_id "attempt" else pure spec.attempt_id

  abbrev pub offered_task : String → TaskSpec → Endpoint → String → String → Time → Task
  offered_task session_id spec target task_id attempt_id t = record {
    schema_version = "rdev.task.v1";
    id = task_id;
    session_id = session_id;
    target_endpoint_id = target.id;
    target_selector = spec.target_selector;
    adapter = spec.adapter;
    intent = spec.intent;
    capabilities = spec.capabilities;
    payload = spec.payload;
    limits = spec.limits;
    attempt_id = attempt_id;
    idempotency_key = spec.idempotency_key;
    status = TaskStatus.offered;
    created_at = t;
    started_at = none;
    ended_at = none;
  }

  abbrev pub offer_event : Task → String → Event
  offer_event task idempotency_key = record no_event {
    type = EventType.task;
    from_endpoint_id = "agent";
    to_endpoint_id = task.target_endpoint_id;
    task_id = task.id;
    idempotency_key = idempotency_key;
    payload = some (
        ("action", text "offer")
        ∷ ("adapter", text task.adapter)
        ∷ ("attempt_id", text task.attempt_id)
        ∷ []);
  }

  -- A task that no earlier call with its key has submitted.
  unfoldable pub submit_new : String → Session → TaskSpec → Store (Task × Event)
  submit_new session_id session spec = do
    target ← lift (route_task session spec)
    task_id ← new_id "task"
    attempt_id ← attempt_of spec
    t ← now
    let task = offered_task session_id spec target task_id attempt_id t
    let key = "task:" <> spec.idempotency_key
    event ← append_event_locked session_id (offer_event task key) true
    put_store (add_task session_id task (session_id <> ":" <> key) event)
    pure (task, event)

  abbrev pub submit_over : Option TaskRecord → String → Session → TaskSpec → Store (Task × Event)
  submit_over none session_id session spec = submit_new session_id session spec
  submit_over (some r) session_id session spec = task_and_event_locked session_id r

  -- `SubmitTask`
  unfoldable pub submit_task : String → TaskSpec → Store (Task × Event)
  submit_task session_id spec = do
    session ← find_session session_id
    expired ← session_expired session
    refuse_expired expired session_id
    fail_if (session_terminal session.status)
        (refusal ErrorCode.terminal_session "session is terminal" false)
    λ s.
        submit_over (get (session_id <> ":" <> "task:" <> spec.idempotency_key) s.task_idempotency)
          session_id session spec s

  abbrev pub cancel_event : Task → String → String → String → Event
  cancel_event task task_id reason idempotency_key = record no_event {
    type = EventType.task;
    from_endpoint_id = "agent";
    to_endpoint_id = task.target_endpoint_id;
    task_id = task.id;
    idempotency_key = "cancel:" <> task_id <> ":" <> idempotency_key;
    payload = some (("action", text "cancel") ∷ ("reason", text reason) ∷ []);
  }

  unfoldable pub cancel_new : String → String → String → String → Store (Task × Event)
  cancel_new session_id task_id reason idempotency_key = do
    (task, index, session) ← find_task_locked session_id task_id
    fail_if (is_terminal task.status) task_finished
    t ← now
    canceled ← lift (transition task TaskStatus.canceled t)
    event ←
        append_event_locked session_id (cancel_event canceled task_id reason idempotency_key) true
    put_task session_id index canceled
    put_store (λ m. record m {
      cancel_idempotency =
          put (session_id <> ":cancel:" <> task_id <> ":" <> idempotency_key)
            (record { task_id = canceled.id; event_id = event.id }) m.cancel_idempotency;
    })
    pure (canceled, event)

  abbrev pub cancel_over :
      Option TaskRecord → String → String → String → String → Store (Task × Event)
  cancel_over none session_id task_id reason key = cancel_new session_id task_id reason key
  cancel_over (some r) session_id task_id reason key = task_and_event_locked session_id r

  -- `CancelTask`
  unfoldable pub cancel_task : String → String → String → String → Store (Task × Event)
  cancel_task session_id task_id reason idempotency_key = do
    refuse_if_expired session_id
    λ s.
        cancel_over
          (get (session_id <> ":cancel:" <> task_id <> ":" <> idempotency_key) s.cancel_idempotency)
          session_id task_id reason idempotency_key s

  -- `MarkTaskRunning`
  unfoldable pub mark_task_running : String → String → Store Task
  mark_task_running session_id task_id = do
    refuse_if_expired session_id
    (task, index, session) ← find_task_locked session_id task_id
    t ← now
    running ← lift (transition task TaskStatus.running t)
    put_session session_id (record session { tasks = set session.tasks index running })
    pure running

  -- `stringMapValue` of a result: like `stringPayload`.
  abbrev pub result_text : Payload → String → String
  result_text none key = ""
  result_text (some m) key = string_of (get key m)

  -- `inTerminalGrace`, at the time `t`.
  abbrev pub grace_of : Session → ℤ
  grace_of session =
      if millis session.limits.terminal_grace_millis == pos 0
      then pos 30_000_000_000
      else millis session.limits.terminal_grace_millis

  abbrev pub within_grace : Option Time → Session → Store Bool
  within_grace none session = pure false
  within_grace (some closed) session = do t ← now; pure (not (after t (closed +ℤ grace_of session)))

  unfoldable pub in_terminal_grace : Session → Store Bool
  in_terminal_grace session s = within_grace (get session.id s.terminal_at) session s

  abbrev pub ended_long_ago : Session → Store Bool
  ended_long_ago session =
      if session_terminal session.status
      then (do grace ← in_terminal_grace session; pure (not grace))
      else pure false

  -- The status that a result asks for.
  abbrev pub result_status : String → TaskStatus
  result_status s =
      if s == "failed"
      then TaskStatus.failed
      else if s == "canceled"
      then TaskStatus.canceled
      else TaskStatus.succeeded

  abbrev pub run_if_offered : Task → Store Task
  run_if_offered task =
      if task.status == TaskStatus.offered
      then (do t ← now; lift (transition task TaskStatus.running t))
      else pure task

  abbrev pub result_event : Task → String → String → String → Payload → Event
  result_event task task_id attempt_id idempotency_key result = record no_event {
    type = EventType.task_result;
    from_endpoint_id = task.target_endpoint_id;
    task_id = task.id;
    idempotency_key = "result:" <> task_id <> ":" <> attempt_id <> ":" <> idempotency_key;
    payload = result;
  }

  unfoldable pub complete_new :
      String
      → String
      → Payload
      → Task
      → ℕ
      → Session
      → String
      → String
      → String
      → Store (Task × Event)
  complete_new session_id task_id result task index session attempt_id idempotency_key key = do
    late ← ended_long_ago session
    fail_if late (refusal ErrorCode.terminal_session "terminal session result grace elapsed" false)
    fail_if (is_terminal task.status) task_finished
    fail_if (attempt_id != task.attempt_id)
        (refusal ErrorCode.task_not_found "task attempt does not match" false)
    running ← run_if_offered task
    t ← now
    completed ← lift (transition running (result_status (result_text result "status")) t)
    event ←
        append_event_locked session_id
          (result_event completed task_id attempt_id idempotency_key result) true
    put_task session_id index completed
    put_store (λ m. record m {
      result_idempotency =
          put key (record { task_id = completed.id; event_id = event.id }) m.result_idempotency;
    })
    pure (completed, event)

  abbrev pub complete_over :
      Option TaskRecord
      → String
      → String
      → Payload
      → Task
      → ℕ
      → Session
      → String
      → String
      → String
      → Store (Task × Event)
  complete_over none session_id task_id result task index session attempt_id idempotency_key key =
      complete_new session_id task_id result task index session attempt_id idempotency_key key
  complete_over (some r) session_id task_id result task index session attempt_id idem key =
      task_and_event_locked session_id r

  -- `CompleteTask`
  unfoldable pub complete_task : String → String → Payload → Store (Task × Event)
  complete_task session_id task_id result = do
    refuse_if_expired session_id
    (task, index, session) ← find_task_locked session_id task_id
    let named = result_text result "attempt_id"
    let attempt_id = if named == "" then task.attempt_id else named
    let idempotency_key = result_text result "idempotency_key"
    let key = session_id <> ":result:" <> task_id <> ":" <> attempt_id <> ":" <> idempotency_key
    λ s.
        complete_over (get key s.result_idempotency) session_id task_id result task index session
          attempt_id idempotency_key key s
