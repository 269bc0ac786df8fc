-- ===== src/Tests.antt =====
-- A small control plane, and runs of it at concrete inputs.
mod Audit
mod Snapshots
mod Status
mod Policy
mod Leases
mod Compaction
mod OperatorAuth
mod Workspace
mod Routes
mod Trust
pub mod Data
mod Runs
mod Parts
