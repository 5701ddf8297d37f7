-- ===== src/Raft/Cluster.antt =====
-- Nodes of crates/sigil-cluster/src/raft.rs and the messages between them, as the driver and the
-- transport of crates/sigil-cluster/src/lib.rs and transport.rs deliver them.
pub mod System
pub mod Invariant
pub mod Safety
pub mod Called
pub mod Votes
pub mod Ballots
pub mod Reigns
pub mod Keeping
pub mod Leaders
mod Samples
