-- ===== src/Host.antt =====
-- lib/inc/libral/host.hpp and lib/src/host.cc: the provider for entries of /etc/hosts.
pub mod Entries
pub mod Laws
