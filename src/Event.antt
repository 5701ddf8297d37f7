-- ===== src/Event.antt =====
-- The normalized event of crates/sigil-core/src/event.rs and the alert of plugin.rs.
pub mod Kinds
pub mod Model
pub mod Fields
pub mod Ids
