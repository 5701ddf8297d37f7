-- ===== src/Transport.antt =====
-- The transports of crates/sigil-cluster/src/transport.rs.
pub mod Utf8
pub mod Topics
pub mod Frames
pub mod Wire
mod Samples
