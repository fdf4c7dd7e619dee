-- ===== src/Sem.antt =====
-- kern/sync/wait.c and sem.c: a wait queue and the semaphore on it.
mod Defs
pub mod Queue
pub mod HandOver
mod Tests
unfoldable pub use Defs.*
