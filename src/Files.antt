-- ===== src/Files.antt =====
-- kern/fs/file.c: the table of open files of a process.
mod Defs
mod Ops
pub mod Slots
pub mod Opening
pub mod Transfer
mod Tests
unfoldable pub use Defs.*
unfoldable pub use Ops.*
