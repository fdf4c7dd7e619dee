-- ===== src/VfsLayer.antt =====
-- kern/fs/vfs: inodes, the list of devices, and the way from a path to an inode.
mod Defs
mod Devices
mod Mounts
mod Lookup
mod Opening
pub mod Names
pub mod Mounting
pub mod Parsing
pub mod Creating
pub mod References
mod Partial
pub mod Balance
mod Tests
unfoldable pub use Defs.*
unfoldable pub use Devices.*
unfoldable pub use Mounts.*
unfoldable pub use Lookup.*
unfoldable pub use Opening.*
