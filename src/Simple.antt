-- ===== src/Simple.antt =====
-- lib/inc/libral/simple_provider.hpp and lib/src/simple_provider.cc: providers that are scripts and
-- answer with lines '<KEY>: <VALUE>'.
pub mod Protocol
pub mod Calls
pub mod Errors
pub mod Lines
pub mod Listing
pub mod Updates
