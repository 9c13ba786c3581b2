-- ===== src/Config.antt =====
-- internal/config/config.go: the configuration, its validation, and the manager that loads it.
pub mod Types
pub mod Validate
pub mod Manager
