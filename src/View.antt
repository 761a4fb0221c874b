-- ===== src/View.antt =====
-- The abstract view of a header: its two words as five fields, and what each operation means there.
mod Defs
mod Encode
pub mod Increment
pub mod Decrement
pub mod Merge
pub mod Invariant
pub mod Upgrade
pub mod Counts
pub mod Carry
unfoldable pub use Defs.*
unfoldable pub use Encode.*
