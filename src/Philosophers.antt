-- ===== src/Philosophers.antt =====
-- kern/sync/check_sync.c: the philosophers that share forks by semaphores.
mod Defs
mod Served
mod Invariant
mod Tested
mod Counts
pub mod Dining
pub mod Ending
mod Tests
unfoldable pub use Defs.*
