-- ===== src/ControlPlane/Artifacts.antt =====
-- internal/controlplane/store.go: `UpsertArtifact`, `ResumeTask`, `CompactEvents` and
-- `SetSessionNotifyURL`.
pub mod Offsets
pub mod Compaction
use Prim.Native.String.{◌++◌ as ◌<>◌}
use remote_dev_skillkit.Prelude.{
  ℕ, String, Bool, true, false, not, ◌&&◌, ◌||◌, Option, none, some, List, [], ◌∷◌, if◌then◌else◌,
  ◌==◌, ◌!=◌, string_eq, nat_eq, get, get_or, put, ltb, leb, keep,
}
use remote_dev_skillkit.Prelude.Int.{ltb_ℤ}
use remote_dev_skillkit.Prelude.Text.{byte_len, trim_space}
use remote_dev_skillkit.Exec.{ok, pure, fail_if, require, ◌>>=◌, ◌>>◌}
use remote_dev_skillkit.ControlPlane.Protocol.{
  EventType, TaskStatus, ErrorCode, Value, nil, text, flag, whole, Payload, task_status_eq,
}
use remote_dev_skillkit.ControlPlane.Session.{Session, Event, Task, TaskSpec, ArtifactRef}
use remote_dev_skillkit.ControlPlane.World.{World}
use remote_dev_skillkit.ControlPlane.Store.{
  MemoryStore, State, Store, refusal, put_store, find_session, no_session, no_event, now, new_id,
}
use remote_dev_skillkit.ControlPlane.Append.{append_event_locked}
use remote_dev_skillkit.ControlPlane.Tasks.{is_terminal, find_task_locked}
use remote_dev_skillkit.ControlPlane.Work.{put_session, refuse_if_expired, submit_task}

abbrev cons_some {ℓ} : {A : Type ℓ} → A → Option (List A) → Option (List A)
cons_some x none = none
cons_some x (some xs) = some (x ∷ xs)

-- The loop of `UpsertArtifact`: the first artifact with the id is replaced, unless its upload would
-- move backwards (`none`); a new one goes to the end.
unfoldable pub place_artifact : ArtifactRef → List ArtifactRef → Option (List ArtifactRef)
place_artifact ref [] = some (ref ∷ [])
place_artifact ref (x ∷ xs) =
    if x.id != ref.id
    then cons_some x (place_artifact ref xs)
    else if ltb_ℤ ref.upload_offset x.upload_offset
    then none
    else some (ref ∷ xs)

-- `session.Artifacts = artifacts` in the session as it is stored now.
unfoldable pub store_artifacts : String → List ArtifactRef → MemoryStore → MemoryStore
store_artifacts session_id artifacts m = record m {
  sessions =
      put session_id (record (get_or session_id no_session m.sessions) { artifacts = artifacts })
        m.sessions;
}

abbrev flag_text : Bool → String
flag_text true = "true"
flag_text false = "false"

module _ ⦃w : World⦄ where
  abbrev artifact_event : ArtifactRef → Event
  artifact_event ref = record no_event {
    type = EventType.artifact;
    from_endpoint_id = "artifact";
    task_id = ref.task_id;
    idempotency_key =
        "artifact:"
        <> ref.id
        <> ":"
        <> w.sprint (whole ref.upload_offset)
        <> ":"
        <> flag_text ref.complete;
    payload = some (
        ("id", text ref.id)
        ∷ ("task_id", text ref.task_id)
        ∷ ("upload_offset", whole ref.upload_offset)
        ∷ ("complete", flag ref.complete)
        ∷ ("sha256", text ref.sha256)
        ∷ []);
  }

  abbrev pub artifact_id : ArtifactRef → Store String
  artifact_id ref = if ref.id == "" then new_id "art" else pure ref.id

  -- The reference as the store keeps it.
  abbrev pub stored_ref : String → String → ArtifactRef → ArtifactRef
  stored_ref session_id id given = record given {
    id = id;
    schema_version = "rdev.artifact-ref.v1";
    session_id = session_id;
  }

  -- `UpsertArtifact`
  unfoldable pub upsert_artifact : String → ArtifactRef → Store (ArtifactRef × Event)
  upsert_artifact session_id given = do
    refuse_if_expired session_id
    session ← find_session session_id
    id ← artifact_id given
    fail_if (given.complete && byte_len given.sha256 != 64)
        (refusal ErrorCode.checksum_mismatch "complete artifact requires sha256" true)
    let ref = stored_ref session_id id given
    artifacts ←
        require (place_artifact ref session.artifacts)
          (refusal ErrorCode.artifact_offset_mismatch "artifact upload offset moved backwards" true)
    event ← append_event_locked session_id (artifact_event ref) true
    put_store (store_artifacts session_id artifacts)
    pure (ref, event)

  -- `SetSessionNotifyURL`
  unfoldable pub set_session_notify_url : String → String → Store Session
  set_session_notify_url session_id notify_url = do
    session ← find_session session_id
    t ← now
    let updated = record session { notify_url = trim_space notify_url; updated_at = t }
    put_session session_id updated
    pure updated

-- `CompactEvents`
unfoldable pub compact_events : String → ℕ → Store (Unit {0})
compact_events session_id snapshot_seq = do
  session ← find_session session_id
  put_store (λ m. record m {
    events =
        put session_id (keep (λ e. leb snapshot_seq e.seq) (get_or session_id [] m.events))
          m.events;
    sessions = put session_id (record session { snapshot_seq = snapshot_seq }) m.sessions;
  })

abbrev is_nil : Option Value → Bool
is_nil none = true
is_nil (some nil) = true
is_nil (some v) = false

abbrev pub carries_checkpoint : Payload → Bool
carries_checkpoint none = false
carries_checkpoint (some m) = not (is_nil (get "engineering_task" m))

abbrev with_checkpoint : Payload → String → String → Payload
with_checkpoint none checkpoint_id task_id = none
with_checkpoint (some m) checkpoint_id task_id = some (
    put "engineering_resume_task_id" (text task_id)
      (put "engineering_resume_checkpoint_id" (text checkpoint_id) m))

abbrev pub resume_spec : Task → String → String → TaskSpec
resume_spec source checkpoint_id idempotency_key = record {
  target_endpoint_id = source.target_endpoint_id;
  target_selector = source.target_selector;
  adapter = source.adapter;
  intent = source.intent;
  capabilities = source.capabilities;
  payload = with_checkpoint source.payload checkpoint_id source.id;
  limits = source.limits;
  attempt_id = "";
  idempotency_key = "resume:" <> source.id <> ":" <> checkpoint_id <> ":" <> idempotency_key;
}

module _ ⦃w : World⦄ where
  -- `ResumeTask` after its texts are trimmed. It gives the mutex up before `SubmitTask` takes it
  -- again: `gap` is what other callers do to the state meanwhile.
  unfoldable pub resume_trimmed :
      (State → State) → String → String → String → String → Store (Task × Event)
  resume_trimmed gap session_id task_id checkpoint_id idempotency_key = do
    fail_if (checkpoint_id == "" || idempotency_key == "") (
        refusal ErrorCode.invalid_task "resume checkpoint id and idempotency key are required"
          false)
    fail_if (ltb 256 (byte_len checkpoint_id) || ltb 256 (byte_len idempotency_key))
        (refusal ErrorCode.invalid_task "resume checkpoint id or idempotency key is too long" false)
    refuse_if_expired session_id
    (source, index, session) ← find_task_locked session_id task_id
    fail_if (source.status != TaskStatus.paused && not (is_terminal source.status))
        (refusal ErrorCode.invalid_task "only a paused or terminal task can be resumed" false)
    fail_if (not (carries_checkpoint source.payload)) (
        refusal ErrorCode.invalid_task "task does not carry an engineering checkpoint contract"
          false)
    λ s. (ok tt, gap s)
    submit_task session_id (resume_spec source checkpoint_id idempotency_key)

  -- `ResumeTask`
  unfoldable pub resume_task :
      (State → State) → String → String → String → String → Store (Task × Event)
  resume_task gap session_id task_id checkpoint_id idempotency_key =
      resume_trimmed gap session_id task_id (trim_space checkpoint_id) (trim_space idempotency_key)
