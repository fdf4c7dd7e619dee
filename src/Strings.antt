-- ===== src/Strings.antt =====
-- libs/string.c: the functions on strings that end in a null byte.
mod Defs
pub mod Scan
pub mod Find
pub mod Copies
mod Tests
unfoldable pub use Defs.*
