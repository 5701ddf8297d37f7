-- ===== src/Detection.antt =====
-- Sigma detection rules, crates/sigil-sigma/src/engine.rs and rule.rs.
pub mod Yaml
pub mod Compile
pub mod Engine
pub mod Loading
pub mod Names
mod Samples
