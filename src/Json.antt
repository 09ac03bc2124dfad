-- ===== src/Json.antt =====
-- lib/inc/libral/json_provider.hpp and lib/src/json_provider.cc: providers that are scripts and
-- read and write JSON.
pub mod Documents
pub mod Action
pub mod Changes
pub mod Calls
pub mod Laws
pub mod Frame
pub mod Derive
pub mod Setting
