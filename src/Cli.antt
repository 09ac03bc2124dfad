-- ===== src/Cli.antt =====
-- exe/ralsh.cc and lib/src/cwrapper.cc: the program `ralsh` behind the parsing of its options, and
-- the functions for callers from C.
pub mod Arguments
pub mod Explain
pub mod Main
pub mod Wrapper
pub mod Status
pub mod Start
pub mod Starting
pub mod Layout
