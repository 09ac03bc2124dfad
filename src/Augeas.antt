-- ===== src/Augeas.antt =====
-- lib/inc/libral/augeas/handle.hpp and lib/src/augeas/handle.cc: the tree of augeas with its errors
-- as results.
pub mod Tree
pub mod Saving
pub mod Opening
pub mod Fresh
