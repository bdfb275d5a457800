-- ===== src/Rtnl.antt =====
-- daemon/internal/rtnl: the observations of links and routes.
pub mod Event
pub mod Dump
pub mod Route
pub mod Links
pub mod Subscription
