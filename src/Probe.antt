-- ===== src/Probe.antt =====
-- daemon/internal/probe: the sliding windows, their aggregation, the echo messages and the
-- identifiers.
pub mod Family
pub mod Float
pub mod Aggregate
pub mod Icmp
pub mod Ident
pub mod Window
pub mod Pinger
pub mod Socket
pub mod Dial
