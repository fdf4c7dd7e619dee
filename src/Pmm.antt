-- ===== src/Pmm.antt =====
-- kern/mm/default_pmm.c: the first-fit allocator of physical pages.
mod Defs
pub mod Blocks
pub mod Alloc
pub mod Free
pub mod Fit
pub mod Release
pub mod Highest
pub mod Join
pub mod Merge
pub mod Insert
pub mod Tests
unfoldable pub use Defs.*
