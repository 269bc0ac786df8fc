-- ===== src/ControlPlane.antt =====
-- internal/controlplane: the session control plane.
pub mod Snapshots
pub mod Status
pub mod Protocol
pub mod Session
pub mod World
pub mod Store
pub mod Append
pub mod Tasks
pub mod Leases
pub mod Endpoints
pub mod Events
pub mod Lifecycle
pub mod Join
pub mod Work
pub mod Hosts
pub mod Artifacts
pub mod Reads
pub mod Writes
pub mod Machine
pub mod Invariants
