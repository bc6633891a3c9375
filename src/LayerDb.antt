-- ===== src/LayerDb.antt =====
-- pkg/layerdb: the index of artifacts over a bolt bucket, and its garbage collector.
pub mod Layout
pub mod Engine
pub mod Kv
pub mod Entries
pub mod Store
pub mod Gc
pub mod Blobs
pub mod Verify
pub mod Tests
