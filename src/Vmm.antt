-- ===== src/Vmm.antt =====
-- kern/mm/vmm.c: the virtual memory areas of a process.
mod Defs
pub mod Areas
pub mod Find
pub mod Map
pub mod Check
mod Tests
unfoldable pub use Defs.*
