-- ===== src/Go.antt =====
-- What the source uses of Go's standard library: addresses, times and UTF-8.
pub mod Addr
pub mod Ints
pub mod Strings
pub mod Time
pub mod Utf8
