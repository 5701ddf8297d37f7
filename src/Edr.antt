-- ===== src/Edr.antt =====
-- The gateway for endpoint agents, crates/sigil-edr/src.
pub mod Codec
pub mod Tokens
pub mod Enrolment
pub mod Calls
pub mod Registry
pub mod Commands
pub mod Queue
pub mod Gateway
pub mod Sessions
pub mod Lifecycle
mod Samples
