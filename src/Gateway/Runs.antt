-- ===== src/Gateway/Runs.antt =====
-- internal/gateway: runs of the gateway's methods, and what they do to the audit log and to the bundle
-- of trusted keys.
use remote_dev_skillkit.Prelude.{String, List, [], ◌∷◌}
use remote_dev_skillkit.Trust.{SignedTrustBundle}
use remote_dev_skillkit.ControlPlane.Session.{SessionSpec, EndpointSpec, TaskSpec}
use remote_dev_skillkit.ControlPlane.World.{World}
use remote_dev_skillkit.ControlPlane.Store.{State}
use remote_dev_skillkit.ControlPlane.Machine.{Call, step}
use remote_dev_skillkit.Gateway.{Config, MemoryGateway, AuditEntry, append_audit}
use remote_dev_skillkit.Gateway.Sessions.{
  audited_create_session, audited_join_session, audited_submit_task, audited_cancel_task,
  audited_close_session, audited_revoke_session, audited_rename_host, audited_join_by_code,
  audited_resume_task,
}
use remote_dev_skillkit.Gateway.Bundles.{renew_signed_trust_bundle, update_signed_trust_bundle}

-- The methods of the gateway. `control` is one that only passes a call on.
pub data GatewayCall : Type 0 where
  control : Call → GatewayCall
  create : SessionSpec → GatewayCall
  join_code : (State → State) → (State → State) → String → EndpointSpec → GatewayCall
  join : String → EndpointSpec → GatewayCall
  submit : String → TaskSpec → GatewayCall
  cancel : String → String → String → String → GatewayCall
  resume : (State → State) → String → String → String → String → GatewayCall
  close : String → GatewayCall
  revoke : String → GatewayCall
  rename : String → String → GatewayCall
  audit : AuditEntry → GatewayCall
  renew : GatewayCall
  update : SignedTrustBundle → GatewayCall

module _ ⦃w : World⦄ (config : Config) where
  unfoldable pub gateway_step : GatewayCall → MemoryGateway → MemoryGateway
  gateway_step (control c) g = record g { control = step c g.control }
  gateway_step (create spec) g = (audited_create_session spec g).1
  gateway_step (join_code gap gap' code spec) g = (audited_join_by_code gap gap' code spec g).1
  gateway_step (join session_id spec) g = (audited_join_session session_id spec g).1
  gateway_step (submit session_id spec) g = (audited_submit_task session_id spec g).1
  gateway_step (cancel session_id task_id reason key) g =
      (audited_cancel_task session_id task_id reason key g).1
  gateway_step (resume gap session_id task_id checkpoint_id key) g =
      (audited_resume_task gap session_id task_id checkpoint_id key g).1
  gateway_step (close session_id) g = (audited_close_session session_id g).1
  gateway_step (revoke session_id) g = (audited_revoke_session session_id g).1
  gateway_step (rename host_id name) g = (audited_rename_host host_id name g).1
  gateway_step (audit entry) g = append_audit entry g
  gateway_step renew g = (renew_signed_trust_bundle config g).1
  gateway_step (update next) g = (update_signed_trust_bundle config next g).1

  unfoldable pub gateway_run : List GatewayCall → MemoryGateway → MemoryGateway
  unfolding gateway_step
  gateway_run [] g = g
  gateway_run (c ∷ cs) g = gateway_run cs (gateway_step c g)
