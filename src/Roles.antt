-- ===== src/Roles.antt =====
-- The roles of a node, crates/sigil-cluster/src/role.rs.
pub mod Targets
pub mod Resolved
mod Samples
