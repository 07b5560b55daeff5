-- ===== src/Proxy.antt =====
-- crates/blindfold-proxy: what is sanitized before it crosses the proxy's boundary.
pub mod Sanitize
pub mod Events
