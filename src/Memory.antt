-- ===== src/Memory.antt =====
-- libs/string.c: the functions on blocks of memory.
mod Defs
pub mod Copy
pub mod Compare
mod Tests
unfoldable pub use Defs.*
