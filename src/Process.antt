-- ===== src/Process.antt =====
-- kern/process/proc.c: process identifiers and the relations between processes.
mod Defs
mod Relations
pub mod Walk
pub mod Pid
pub mod Exit
pub mod Find
mod Tests
unfoldable pub use Defs.*
unfoldable pub use Relations.*
