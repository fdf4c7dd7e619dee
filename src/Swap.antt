-- ===== src/Swap.antt =====
-- kern/mm/swap.c and swap_fifo.c: which pages are swapped out.
mod Defs
pub mod Fifo
mod Tests
unfoldable pub use Defs.*
