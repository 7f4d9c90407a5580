-- ===== src/Service.antt =====
-- Services around a request (internal/service).
pub mod Sampler
mod Samples
