-- ===== src/Emitter.antt =====
-- lib/inc/libral/emitter and lib/src/emitter: what is printed about providers and resources.
pub mod Console
pub mod Puppet
pub mod Json
pub mod Width
