-- ===== src/Exec.antt =====
-- crates/blindfold-exec: the process runtime.
pub mod Redactor
pub mod Capture
