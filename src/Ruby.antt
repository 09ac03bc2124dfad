-- ===== src/Ruby.antt =====
-- ruby/ext/libral/libral.cc: the binding for Ruby.
pub mod Values
pub mod Methods
pub mod RoundTrip
