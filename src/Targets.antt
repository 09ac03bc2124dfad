-- ===== src/Targets.antt =====
-- lib/inc/libral/target and lib/src/target: the systems that are managed, this one and those that
-- are reached with ssh.
pub mod Session
pub mod Ssh
pub mod Lenses
pub mod Local
pub mod Laws
pub mod Traffic
pub mod Running
pub mod Opening
