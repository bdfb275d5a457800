-- ===== src/Config.antt =====
-- daemon/internal/config: the configuration and its checks.
pub mod Types
pub mod Validate
pub mod Load
