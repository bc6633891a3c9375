-- ===== src/LayerDb/Tests.antt =====
-- A concrete engine, an index with two artifacts in it, and the theorems applied to them.
pub mod Sample
mod Index
mod Gc
mod Verify
mod Begin
