-- ===== src/ClusterOrder.antt =====
-- The ClusterOrder controller: internal/controller/clusterorder_controller.go,
-- clusterorder_resources.go and clusterorder_names.go.
pub mod Resources
pub mod Observed
pub mod Handlers
pub mod Release
pub mod Conditions
pub mod NodePools
pub mod Reference
