-- ===== src/Gateway/Sessions.antt =====
-- internal/gateway/session.go and hosts.go: the methods of the control plane that leave an audit event.
-- `gap` is what other callers do to the store where the method gives up its mutex.
use remote_dev_skillkit.Prelude.{String, List}
use remote_dev_skillkit.Exec.{Result}
use remote_dev_skillkit.ControlPlane.Session.{
  Session, Endpoint, Lease, Event, Task, SessionSpec, EndpointSpec, TaskSpec, Host,
}
use remote_dev_skillkit.ControlPlane.World.{World}
use remote_dev_skillkit.ControlPlane.Store.{State}
use remote_dev_skillkit.ControlPlane.Lifecycle.{create_session, close_session, revoke_session}
use remote_dev_skillkit.ControlPlane.Join.{join_session, join_by_code}
use remote_dev_skillkit.ControlPlane.Work.{submit_task, cancel_task}
use remote_dev_skillkit.ControlPlane.Artifacts.{resume_task}
use remote_dev_skillkit.ControlPlane.Hosts.{rename_host}
use remote_dev_skillkit.Gateway.{MemoryGateway, AuditEntry, audited}

abbrev entry : String → String → String → String → AuditEntry
entry actor action target_id message = record {
  actor = actor;
  action = action;
  target_id = target_id;
  message = message;
}

module _ ⦃w : World⦄ where
  abbrev Gateway : Type 0 → Type 0
  Gateway A = MemoryGateway → Result A × MemoryGateway

  unfoldable pub audited_create_session : SessionSpec → Gateway Session
  audited_create_session spec =
      audited (λ s. entry "operator" "session.create" s.id "created session") (create_session spec)

  unfoldable pub audited_join_by_code :
      (State → State)
      → (State → State)
      → String
      → EndpointSpec
      → Gateway (Session × Endpoint × Lease × List Event)
  audited_join_by_code gap gap' code spec =
      audited (λ r. entry "target" "session.join" r.1.id "endpoint joined session")
        (join_by_code gap gap' code spec)

  unfoldable pub audited_join_session : String → EndpointSpec → Gateway (Session × Endpoint × Lease)
  audited_join_session session_id spec =
      audited (λ r. entry "target" "session.join" r.1.id "endpoint joined session")
        (join_session session_id spec)

  unfoldable pub audited_submit_task : String → TaskSpec → Gateway (Task × Event)
  audited_submit_task session_id spec =
      audited (λ r. entry "operator" "session.task.submit" r.0.id "offered task to target endpoint")
        (submit_task session_id spec)

  unfoldable pub audited_cancel_task : String → String → String → String → Gateway (Task × Event)
  audited_cancel_task session_id task_id reason key =
      audited (λ r. entry "operator" "session.task.cancel" r.0.id "canceled task")
        (cancel_task session_id task_id reason key)

  unfoldable pub audited_resume_task :
      (State → State) → String → String → String → String → Gateway (Task × Event)
  audited_resume_task gap session_id task_id checkpoint_id key =
      audited (λ r. entry "operator" "session.task.resume" r.0.id "resumed task from checkpoint")
        (resume_task gap session_id task_id checkpoint_id key)

  unfoldable pub audited_close_session : String → Gateway (Session × Event)
  audited_close_session session_id =
      audited (λ r. entry "operator" "session.close" r.0.id "closed session")
        (close_session session_id)

  unfoldable pub audited_revoke_session : String → Gateway (Session × Event)
  audited_revoke_session session_id =
      audited (λ r. entry "operator" "session.revoke" r.0.id "revoked session and endpoint leases")
        (revoke_session session_id)

  unfoldable pub audited_rename_host : String → String → Gateway Host
  audited_rename_host host_id display_name =
      audited (λ h. entry "operator" "host.rename" host_id "renamed host directory entry")
        (rename_host host_id display_name)
