-- ===== src/Store.antt =====
-- The durable store, crates/sigil-store/src/lib.rs.
pub mod Records
pub mod Tables
pub mod Alerts
pub mod Saved
pub mod Triage
pub mod Patches
pub mod Objects
pub mod Memory
mod Samples
