-- ===== src/Repo/Tests.antt =====
-- A local and a remote repository, and the theorems applied to them.
pub mod Sample
mod Bundle
mod Pull
mod Push
mod Links
mod Sink
