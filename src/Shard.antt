-- ===== src/Shard.antt =====
-- `ShardMap` of crates/sigil-cluster/src/shard.rs.
pub mod Map
pub mod Placement
mod Samples
