-- ===== src/Index.antt =====
-- The index, crates/sigil-index/src.
pub mod Catalog
pub mod Pruning
mod Samples
