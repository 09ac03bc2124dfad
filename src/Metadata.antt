-- ===== src/Metadata.antt =====
-- lib/inc/libral/prov/spec.hpp and lib/src/prov/spec.cc: reading a provider's metadata.
pub mod Suitable
pub mod Read
pub mod Commands
pub mod Interpreter
pub mod Exceptions
pub mod Environment
pub mod Builtin
