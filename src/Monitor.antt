-- ===== src/Monitor.antt =====
-- kern/sync/monitor.c: monitors with condition variables, and the threads that use one.
mod Defs
mod Threads
mod Invariant
mod Reachable
pub mod Progress
mod Tests
unfoldable pub use Defs.*
unfoldable pub use Threads.*
