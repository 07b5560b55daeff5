-- ===== src/Plugin.antt =====
-- crates/blindfold-plugin-api: the manifests of harness adapters.
pub mod Manifest
