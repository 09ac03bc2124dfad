-- ===== src/File.antt =====
-- lib/inc/libral/file.hpp and lib/src/file.cc: the file provider.
pub mod Steps
pub mod Set
pub mod Guard
pub mod Changing
pub mod Settled
pub mod Removal
pub mod Mode
pub mod Load
pub mod Relative
pub mod Table
pub mod Content
