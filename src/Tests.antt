-- ===== src/Tests.antt =====
-- Runs of the definitions and uses of the theorems at concrete inputs.
mod References
mod Redacting
mod Capturing
mod Policies
mod Tracing
mod Keeping
mod Diffing
mod Proxying
mod Scanning
mod Detecting
mod Plugins
