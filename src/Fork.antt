-- ===== src/Fork.antt =====
-- kern/process/proc.c: do_fork, with the files_struct of kern/fs/fs.c.
mod Defs
mod Counts
mod Undone
mod Tables
pub mod Refusal
mod Tests
unfoldable pub use Defs.*
