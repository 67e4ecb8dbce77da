-- ===== src/Api.antt =====
-- The custom resources: api/v1alpha1. `Kube` is what the program calls of Kubernetes' libraries.
pub mod Job
pub mod Condition
pub mod ComputeInstance
pub mod Tenant
pub mod Kube
pub mod ClusterOrder
pub mod HostPool
