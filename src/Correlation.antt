-- ===== src/Correlation.antt =====
-- Sigma correlation rules, crates/sigil-sigma/src/correlation.rs.
pub mod Timespan
pub mod Spans
pub mod Rule
pub mod Engine
pub mod Fires
pub mod Eviction
pub mod Firing
pub mod Loading
mod Samples
