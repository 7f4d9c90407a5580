-- ===== src/Chat.antt =====
-- Handling a chat completion request (internal/logic, internal/types/errors.go).
pub mod Chunks
pub mod Errors
pub mod Window
pub mod Trace
pub mod Retry
pub mod Degradation
pub mod Streaming
mod Samples
