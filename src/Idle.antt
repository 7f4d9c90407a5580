-- ===== src/Idle.antt =====
-- The idle timeout of a request (internal/timeout/idle.go).
pub mod Tracker
pub mod Timer
pub mod Watch
mod Samples
