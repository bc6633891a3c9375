-- ===== src/Spec.antt =====
-- internal/spec: the artifact's description, and its generation from a directory.
pub mod Types
pub mod Diffids
pub mod Kinds
pub mod Media
pub mod Gen
mod Tests
