-- ===== src/Sfs.antt =====
-- kern/fs/sfs/sfs_inode.c and sfs_io.c: the blocks of a file, and reads and writes of it.
mod Disk
mod Blocks
mod Io
pub mod Load
pub mod Parts
pub mod Read
pub mod File
mod Tests
unfoldable pub use Disk.*
unfoldable pub use Blocks.*
unfoldable pub use Io.*
