-- ===== src/ClusterPolicy.antt =====
-- The cluster-wide hibernate policy (internal/controller/clusterhibernatepolicy_controller.go).
pub mod Collect
pub mod Act
pub mod Effects
pub mod Reach
pub mod Reconcile
pub mod Tour
pub mod Outcome
pub mod Promise
pub mod Governed
pub mod Sound
pub mod Complete
pub mod Selection
pub mod Reached
