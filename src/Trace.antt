-- ===== src/Trace.antt =====
-- crates/blindfold-trace: records of what crossed the boundary, and the files that keep them.
pub mod Record
pub mod Store
pub mod Reader
