-- ===== src/Bitmap.antt =====
-- kern/fs/sfs/bitmap.c: the free blocks of a disk.
mod Defs
pub mod Bits
pub mod Alloc
mod Tests
unfoldable pub use Defs.*
