-- ===== src/Transfer.antt =====
-- internal/transfer/download.go: the resumable, chunked download.
pub mod Float
pub mod Chunks
pub mod Backoff
pub mod Sync
pub mod Part
pub mod Whole
mod Tests
