-- ===== src/Ral.antt =====
-- lib/inc/libral/ral.hpp and lib/src/ral.cc: which providers there are, and how one is found.
pub mod Metadata
pub mod Environment
pub mod Directories
pub mod Lookup
pub mod Loading
pub mod Sorting
pub mod Target
