-- ===== src/ControlPlane/Invariants.antt =====
-- What every run of the control plane keeps: its sessions, its event logs and its tasks.
pub mod Sessions
pub mod Logs
pub mod History
pub mod Tasks
