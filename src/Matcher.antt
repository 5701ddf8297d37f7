-- ===== src/Matcher.antt =====
-- The selections of Sigma rules, crates/sigil-sigma/src/matcher.rs.
pub mod Modifiers
pub mod Predicates
pub mod Selections
pub mod Keys
pub mod Substrings
mod Samples
