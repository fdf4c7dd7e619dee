-- ===== src/Timer.antt =====
-- kern/schedule/sched.c: the timer list.
mod Defs
pub mod Due
pub mod Tick
pub mod Tests
unfoldable pub use Defs.*
