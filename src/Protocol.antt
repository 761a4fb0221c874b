-- ===== src/Protocol.antt =====
-- One object shared by any number of threads: the calls of src/runtime.rs in any order.
mod Calls
pub mod Invariant
pub mod Safety
pub mod Hasty
pub mod Overtaken
pub mod Lifetime
pub mod Locked
pub mod Accesses
pub use Calls.*
