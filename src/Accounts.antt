-- ===== src/Accounts.antt =====
-- The user and group providers: lib/src/user.cc and lib/src/group.cc.
pub mod Tools
pub mod User
pub mod Group
pub mod UserLaws
pub mod Creation
pub mod Describe
pub mod Listing
