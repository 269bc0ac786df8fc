-- ===== src/ControlPlane/Writes/Artifacts.antt =====
-- internal/controlplane/store.go: artifacts, resumed tasks, compaction, and joining by a code.
use remote_dev_skillkit.Prelude.{
  List, ℕ, String, Bool, true, false, not, ◌||◌, ◌&&◌, some, ◌≡◌, refl, string_eq, nat_eq, ◌==◌,
  ◌!=◌, get, get_or_of-get, ltb, if◌then◌else◌,
}
use remote_dev_skillkit.Prelude.Text.{byte_len, trim_space}
use remote_dev_skillkit.Exec.{ok, pure, ◌>>=◌}
use remote_dev_skillkit.ControlPlane.Protocol.{TaskStatus, task_status_eq}
use remote_dev_skillkit.ControlPlane.Session.{Session, ArtifactRef}
use remote_dev_skillkit.ControlPlane.World.{World}
use remote_dev_skillkit.ControlPlane.Store.{MemoryStore, Store, State, now, new_id, no_session}
use remote_dev_skillkit.ControlPlane.Tasks.{is_terminal}
use remote_dev_skillkit.ControlPlane.Work.{submit_task}
use remote_dev_skillkit.ControlPlane.Artifacts.{
  place_artifact, store_artifacts, stored_ref, artifact_id, upsert_artifact, set_session_notify_url,
  compact_events, carries_checkpoint, resume_spec, resume_trimmed, resume_task,
}
use remote_dev_skillkit.ControlPlane.Writes.{
  Write, update, compact, TasksStep, EndpointsStep, IsKeyed, Writes,
}
use remote_dev_skillkit.ControlPlane.Writes.Rules.{
  Refines, IsQuiet, Refines-quiet, IsQuiet-pure, Refines-bind_quiet, Refines-bind, Refines-put,
  Refines-last_put, IsQuiet-now, IsQuiet-new_id, Refines-append,
}
use remote_dev_skillkit.ControlPlane.Writes.Guards.{
  Refines-require, Refines-guard, Refines-find_session,
}
use remote_dev_skillkit.ControlPlane.Writes.Tasks.{find_task-Refines, refuse_if_expired-Refines}
use remote_dev_skillkit.ControlPlane.Writes.Results.{submit_task-Refines}

-- What other callers do between two critical sections.
pub record Interferes (gap : State → State) : Type 0 where
  pub at : (s : State) → IsKeyed s.store → Writes s.store (gap s).store

Refines-gap :
    {B : Type 0} (x : MemoryStore) (gap : State → State) (f : Unit {0} → Store B)
    → Interferes gap
    → ((y : MemoryStore) → Refines y (f tt))
    → Refines x ((λ s. (ok tt, gap s)) >>= f)
Refines-gap x gap f g h =
    Refines-bind x (λ s. (ok tt, gap s)) f (record { at = λ k s. g.at (record s { store = x }) k })
      λ y _ _. h y

pub compact_events-Refines :
    (x : MemoryStore) (session_id : String) (snapshot_seq : ℕ)
    → Refines x (compact_events session_id snapshot_seq)
unfolding compact_events
compact_events-Refines x session_id snapshot_seq =
    Refines-find_session x session_id _ λ session found.
      Refines-last_put x _ (compact session_id session snapshot_seq found refl refl)

artifacts-Write :
    (session_id : String) (artifacts : List ArtifactRef) (x : MemoryStore) (session : Session)
    → get session_id x.sessions ≡ some session
    → Write x (store_artifacts session_id artifacts x)
unfolding store_artifacts
artifacts-Write session_id artifacts x session found =
    rw (get_or_of-get session_id no_session session x.sessions found) (
      update session_id session _ found
        (record {
          id = refl;
          capabilities = refl;
          join_policy = refl;
          last_seq = refl;
          terminal = λ h. h;
          tasks = TasksStep.same refl;
          endpoints = EndpointsStep.same refl;
        })
        refl refl)

module _ ⦃w : World⦄ where
  pub set_session_notify_url-Refines :
      (x : MemoryStore) (session_id notify_url : String)
      → Refines x (set_session_notify_url session_id notify_url)
  unfolding set_session_notify_url
  set_session_notify_url-Refines x session_id notify_url =
      Refines-find_session x session_id _ λ session found.
        Refines-bind_quiet x now _ IsQuiet-now λ t _ _.
          Refines-put x _ _
            (update session_id session _ found
              (record {
                id = refl;
                capabilities = refl;
                join_policy = refl;
                last_seq = refl;
                terminal = λ h. h;
                tasks = TasksStep.same refl;
                endpoints = EndpointsStep.same refl;
              })
              refl refl)
            (Refines-quiet _ _ (IsQuiet-pure _))

  IsQuiet-artifact_id : (ref : ArtifactRef) → IsQuiet (artifact_id ref)
  IsQuiet-artifact_id ref = if_quiet (ref.id == "")
    where
      if_quiet : (b : Bool) → IsQuiet (if b then new_id "art" else pure ref.id)
      if_quiet true = IsQuiet-new_id "art"
      if_quiet false = IsQuiet-pure ref.id

  pub upsert_artifact-Refines :
      (x : MemoryStore) (session_id : String) (ref : ArtifactRef)
      → Refines x (upsert_artifact session_id ref)
  unfolding upsert_artifact
  upsert_artifact-Refines x session_id given = refuse_if_expired-Refines x session_id _ (
      Refines-find_session x session_id _ λ session found.
        Refines-bind_quiet x _ _ (IsQuiet-artifact_id given) λ id _ _.
          Refines-guard x (given.complete && byte_len given.sha256 != 64) _ _ λ _.
            Refines-require x (place_artifact (stored_ref session_id id given) session.artifacts) _
              _
              λ artifacts _. Refines-append x session_id _ true _ λ event y a.
                let (session', found', parts) = a.1 session found in
                Refines-put y _ _ (artifacts-Write session_id artifacts y session' found')
                  (Refines-quiet _ _ (IsQuiet-pure (stored_ref session_id id given, event))))

  resume_trimmed-Refines :
      (x : MemoryStore) (gap : State → State) (session_id task_id checkpoint_id key : String)
      → Interferes gap
      → Refines x (resume_trimmed gap session_id task_id checkpoint_id key)
  unfolding resume_trimmed
  resume_trimmed-Refines x gap session_id task_id checkpoint_id key g =
      Refines-guard x (checkpoint_id == "" || key == "") _ _ λ _.
        Refines-guard x (ltb 256 (byte_len checkpoint_id) || ltb 256 (byte_len key)) _ _ λ _.
          refuse_if_expired-Refines x session_id _ (
            find_task-Refines x session_id task_id _ λ session t i found hit.
              Refines-guard x (t.status != TaskStatus.paused && not (is_terminal t.status)) _ _ λ _.
                Refines-guard x (not (carries_checkpoint t.payload)) _ _ λ _.
                  Refines-gap x gap (λ _. submit_task session_id (resume_spec t checkpoint_id key))
                    g λ y. submit_task-Refines y session_id (resume_spec t checkpoint_id key))

  -- Resuming a task changes a store whose sessions stand under their own ids only by steps of the
  -- abstract control plane, if what other callers do between its two critical sections does so.
  pub resume_task-Refines :
      (x : MemoryStore) (gap : State → State) (session_id task_id checkpoint_id key : String)
      → Interferes gap
      → Refines x (resume_task gap session_id task_id checkpoint_id key)
  unfolding resume_task
  resume_task-Refines x gap session_id task_id checkpoint_id key g =
      resume_trimmed-Refines x gap session_id task_id (trim_space checkpoint_id) (trim_space key) g
