-- ===== src/Mount.antt =====
-- lib/inc/libral/mount.hpp and lib/src/mount.cc: the mount provider, over the tree of augeas.
pub mod Tree
pub mod Get
pub mod Set
pub mod States
pub mod Saving
pub mod Described
