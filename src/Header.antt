-- ===== src/Header.antt =====
-- src/runtime.rs: `RawBrcHeader`, the two counters of an object.
mod Defs
mod Counts
mod Increment
mod Decrement
mod Merge
pub mod Interference
unfoldable pub use Defs.*
unfoldable pub use Counts.*
unfoldable pub use Increment.*
unfoldable pub use Decrement.*
unfoldable pub use Merge.*
