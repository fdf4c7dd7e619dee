-- ===== src/Sched.antt =====
-- kern/schedule: the stride scheduler and the scheduling core.
mod Defs
pub mod Schedule
pub mod Dequeue
pub mod Invariant
pub mod Stride
pub mod Tests
unfoldable pub use Defs.*
