-- ===== src/Sysfile.antt =====
-- kern/fs/sysfile.c: reads and writes of user processes, in blocks.
mod Defs
pub mod Write
pub mod Read
mod Tests
unfoldable pub use Defs.*
