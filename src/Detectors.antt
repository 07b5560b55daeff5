-- ===== src/Detectors.antt =====
-- crates/blindfold-detectors: what a detector reports, and what is done with it.
pub mod Finding
pub mod Overlap
pub mod Redaction
pub mod DetectorSet
