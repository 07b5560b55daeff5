-- ===== src/Diff.antt =====
-- crates/blindfold-diff: unified patches and what is found in their added lines.
pub mod Text
pub mod Patch
pub mod Parser
pub mod Printer
pub mod Scan
pub mod Builtin
pub mod Report
