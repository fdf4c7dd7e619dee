-- ===== src/Iobuf.antt =====
-- kern/fs/iobuf.c: the buffer that a read or a write goes through.
mod Defs
pub mod Move
mod Tests
unfoldable pub use Defs.*
