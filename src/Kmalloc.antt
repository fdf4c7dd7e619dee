-- ===== src/Kmalloc.antt =====
-- kern/mm/kmalloc.c: the SLOB allocator of the kernel.
mod Defs
pub mod Order
pub mod Limits
mod Tests
unfoldable pub use Defs.*
