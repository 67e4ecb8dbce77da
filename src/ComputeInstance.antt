-- ===== src/ComputeInstance.antt =====
-- The ComputeInstance controller: internal/controller/computeinstance_*.go.
pub mod Run
pub mod Watches
pub mod Jobs
pub mod Version
pub mod Provisioning
pub mod Deprovisioning
pub mod Restart
pub mod Update
pub mod Delete
pub mod Reconcile
pub mod Tenants
