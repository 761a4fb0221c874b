-- ===== src/Threads.antt =====
-- src/runtime/threads.rs: the threads that take part in biased counting.
pub mod Local
pub mod SegQueue
pub mod Memory
pub mod Queue
pub mod Shared
pub mod Drain
pub mod Death
pub mod Boxcar
pub mod Registry
pub mod Lifecycle
pub mod Current
pub mod Birth
pub mod Collect
pub mod Unwinding
pub mod Panics
pub mod Resumption
