-- ===== src/Router/Priority.antt =====
-- The priority strategy (internal/router/strategies/priority).
pub mod Config
pub mod Group
pub mod Visible
pub mod Strategy
mod Samples
