-- ===== src/Examples.antt =====
-- Tests, and each theorem applied to a concrete input.
mod Kubernetes
mod Samples
mod Jobs
mod Webhooks
mod Clients
mod Providers
mod Instances
mod Deletion
mod Tenants
mod ClusterOrders
mod HostPools
mod Feedbacks
