-- ===== src/Words/Shared.antt =====
-- src/runtime.rs, `SharedCount` and `SharedWord`: the shared counter with its two flags in one
-- 64-bit word, for a target with 64-bit pointers.
mod Defs
mod Codec
mod Atomics
unfoldable pub use Defs.*
pub use Codec.*
pub use Atomics.*
