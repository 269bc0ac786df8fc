-- ===== src/Gateway.antt =====
-- internal/gateway/memory.go, session.go and hosts.go: the control plane with an audit log of what
-- operators and targets did, and the signed bundle of trusted keys.
pub mod Sessions
pub mod Bundles
pub mod Runs
pub mod Log
pub mod Following
pub mod Renewal
use Prim.Native.String.{◌++◌ as join}
use remote_dev_skillkit.Prelude.{
  ℕ, ◌+◌, String, Bool, true, false, Option, none, some, List, [], ◌∷◌, ◌++◌, ℤ, pos, length,
  if◌then◌else◌, ◌==◌, string_eq, not,
}
use remote_dev_skillkit.Prelude.Int.{◌+ℤ◌, wrap_int64}
use remote_dev_skillkit.Prelude.Errors.{Checked, passed, refused, ◌>>=◌, ◌>>◌}
use remote_dev_skillkit.Exec.{Result, ok, err, Exec}
use remote_dev_skillkit.Audit.{AuditEvent}
use remote_dev_skillkit.Trust.{
  Bytes, TrustKey, SignedTrustBundle, SignedTrustBundleSpec, TrustError, Crypto,
  active_trust_bundle, new_trust_key,
}
use remote_dev_skillkit.Trust.Bundle.{
  one_day, new_signed_trust_bundle, sign_bundle, hash_of, verify_update,
}
use remote_dev_skillkit.ControlPlane.Protocol.{Failure}
use remote_dev_skillkit.ControlPlane.Session.{
  Time, Session, Endpoint, Lease, Event, Task, SessionSpec, EndpointSpec, TaskSpec, Host,
}
use remote_dev_skillkit.ControlPlane.World.{World, before}
use remote_dev_skillkit.ControlPlane.Store.{State, Store, new_memory_store}
use remote_dev_skillkit.ControlPlane.Lifecycle.{create_session, close_session, revoke_session}
use remote_dev_skillkit.ControlPlane.Join.{join_session}
use remote_dev_skillkit.ControlPlane.Work.{submit_task, cancel_task}
use remote_dev_skillkit.ControlPlane.Hosts.{rename_host}

-- What does not change: the signing key, and the libraries. `decimal` is the `%d` of `fmt.Sprintf`.
pub record Config : Type 0 where
  pub crypto : Crypto
  pub decimal : ℤ → String
  pub signing_id : String
  pub public_key : Bytes
  pub private_key : Bytes

-- What does change. The clock is the one of the control plane.
pub record MemoryGateway : Type 0 where
  pub control : State
  pub audit : List AuditEvent
  pub trust_bundle : SignedTrustBundle

-- What `appendAudit` is told.
pub record AuditEntry : Type 0 where
  pub actor : String
  pub action : String
  pub target_id : String
  pub message : String

module _ ⦃w : World⦄ where
  -- `g.now()`, and the state after it.
  abbrev pub clock : MemoryGateway → Time
  clock g = w.clock g.control.reads

  abbrev pub ticked : MemoryGateway → MemoryGateway
  ticked g = record g { control = record g.control { reads = g.control.reads + 1 } }

  unfoldable pub append_audit : AuditEntry → MemoryGateway → MemoryGateway
  append_audit entry g = record (ticked g) {
    audit =
        g.audit
        ++ record {
          sequence = pos (length g.audit + 1);
          actor = entry.actor;
          action = entry.action;
          target_id = entry.target_id;
          message = entry.message;
          at = clock g;
        }
          ∷ [];
  }

  module _ {A : Type 0} (entry : A → AuditEntry) where
    abbrev pub after_call : Result A × State → MemoryGateway → Result A × MemoryGateway
    after_call (ok a, control) g = (ok a, append_audit (entry a) (record g { control = control }))
    after_call (err e, control) g = (err e, record g { control = control })

    -- A method of the control plane, and an audit event where it did not fail.
    unfoldable pub audited : Store A → MemoryGateway → Result A × MemoryGateway
    audited m g = after_call (m g.control) g
