-- ===== src/Format.antt =====
-- libs/printfmt.c and libs/string.c: numbers as text. libs/rand.c: random numbers.
mod Defs
mod Printing
pub mod RoundTrip
mod Tests
unfoldable pub use Defs.*
