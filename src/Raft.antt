-- ===== src/Raft.antt =====
-- The Raft core, crates/sigil-cluster/src/raft.rs.
pub mod Types
pub mod Init
pub mod Node
pub mod Step
pub mod Frame
pub mod Bounds
pub mod Panics
pub mod Elections
pub mod Commit
pub mod Committed
pub mod Replication
pub mod Driver
pub mod Run
pub mod Votes
pub mod Turns
pub mod Turning
pub mod Says
pub mod Cluster
mod Samples
