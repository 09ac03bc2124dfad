-- ===== src/Context.antt =====
-- lib/inc/libral/context.hpp and lib/src/context.cc: the changes of a resource, and the context of
-- one call of a provider, which collects them by resource.
mod Record
mod Log
pub mod Laws
pub mod Missing
pub mod MaybeAdd
pub mod Absent
unfoldable pub use Record.*
unfoldable pub use Log.*
