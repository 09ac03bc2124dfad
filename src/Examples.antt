-- ===== src/Examples.antt =====
-- The theorems at concrete inputs.
mod Updates
mod Types
mod Scripts
mod Files
mod Systems
mod Documents
mod Remotes
mod Commands
mod Reading
mod Hosts
mod Bindings
mod Described
mod Interpreting
mod Storing
