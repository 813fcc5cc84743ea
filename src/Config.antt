-- ===== src/Config.antt =====
-- internal/config/config.go.
pub mod Parse
pub mod Generations
pub mod Load
pub mod Bounds
pub mod Valid
pub mod Tenants
