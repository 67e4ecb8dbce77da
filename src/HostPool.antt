-- ===== src/HostPool.antt =====
-- The HostPool controller: internal/controller/hostpool_controller.go, hostpool_resources.go and
-- hostpool_names.go.
pub mod Resources
pub mod Steps
pub mod Handlers
pub mod Release
pub mod HeldBack
pub mod Phases
