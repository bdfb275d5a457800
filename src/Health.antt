-- ===== src/Health.antt =====
-- daemon/internal/health: the verdicts on each WAN.
pub mod Hysteresis
pub mod Thresholds
pub mod Wans
