-- ===== src/Provisioning.antt =====
-- internal/provisioning: the provider interface (provider.go) and its two implementations.
pub mod Provider
pub mod Eda
pub mod Aap
