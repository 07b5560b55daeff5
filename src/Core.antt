-- ===== src/Core.antt =====
-- crates/blindfold-core: the types that the other crates share.
pub mod Types
pub mod SafeRef
