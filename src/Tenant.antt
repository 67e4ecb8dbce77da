-- ===== src/Tenant.antt =====
-- The Tenant controller: internal/controller/tenant_controller.go and tenant_resources.go.
pub mod Resources
pub mod Handlers
pub mod Phases
pub mod Removal
pub mod Rounds
pub mod Lifecycle
