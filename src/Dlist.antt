-- ===== src/Dlist.antt =====
-- libs/list.h: the circular doubly linked list that the kernel threads through its structures.
-- An entry is an address; `Links` is the memory that holds the two pointers of each entry.
-- `list_next` and `list_prev` are the fields `next` and `prev`.
mod Defs
mod Chains
mod Refine
mod Twice
unfoldable pub use Defs.*
pub use Chains.*
pub use Refine.*
pub use Twice.*
