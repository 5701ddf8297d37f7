-- ===== src/Ingest.antt =====
-- The codecs of crates/sigil-ingest.
pub mod Cef
pub mod Headers
pub mod Values
pub mod Record
pub mod Leef
pub mod Attributes
mod Samples
