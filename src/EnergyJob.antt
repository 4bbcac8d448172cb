-- ===== src/EnergyJob.antt =====
-- The controller of EnergyAwareCronJobs
-- (internal/controller/energyawarecronjob_controller.go).
pub mod Naming
pub mod Types
pub mod Run
pub mod Sync
pub mod Dispatch
pub mod Optimal
pub mod Reconcile
pub mod Laws
pub mod Rules
pub mod Forbid
pub mod Timely
pub mod Unsatisfiable
pub mod Watch
pub mod Due
