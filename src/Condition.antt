-- ===== src/Condition.antt =====
-- The `condition` language of Sigma rules, crates/sigil-sigma/src/condition.rs.
pub mod Syntax
pub mod Lexer
pub mod Parser
pub mod Grammar
pub mod Complete
pub mod Sound
pub mod Fuel
pub mod Print
pub mod Eval
pub mod Meaning
mod Samples
