-- ===== src/Policy.antt =====
-- crates/blindfold-policy/src/lib.rs: decisions about sensitive data at a destination.
pub mod Types
pub mod Rules
pub mod Presets
pub mod Engine
