-- ===== src/Kpu.antt =====
-- kern/fs/devs/dev_kpuio.c and kpu_spooling.c: the device through which processes hand pictures to
-- the KPU, and the pool of tasks.
mod Defs
mod Device
mod Spool
mod Gather
pub mod Collect
pub mod Feed
pub mod Pool
pub mod Submit
pub mod Results
mod Tests
unfoldable pub use Defs.*
unfoldable pub use Device.*
unfoldable pub use Spool.*
