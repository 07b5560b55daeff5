-- ===== src/Vault.antt =====
-- crates/blindfold-vault: protected values under references, in an encrypted file.
pub mod State
pub mod File
pub mod Operations
