-- ===== src/SkewHeap.antt =====
-- libs/skew_heap.h: the mergeable priority queue behind the run pool.
mod Defs
pub mod Order
unfoldable pub use Defs.*
