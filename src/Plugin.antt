-- ===== src/Plugin.antt =====
-- The permissions of plugins, crates/sigil-plugin-wasm/src/capability.rs.
pub mod Capability
pub mod Policy
mod Samples
