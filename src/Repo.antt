-- ===== src/Repo.antt =====
-- internal/repo: the local repository, over the store of layers, a remote registry and a directory
-- of snapshots.
pub mod World
pub mod Layers
pub mod Artifacts
pub mod Bundle
pub mod Extract
pub mod Links
pub mod Loop
pub mod Pull
pub mod Push
pub mod Sink
pub mod Statuses
pub mod Tests
