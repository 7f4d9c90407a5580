-- ===== src/Router.antt =====
-- The choice of a model for requests that ask for the model "auto" (internal/router).
pub mod Priority
pub mod Semantic
