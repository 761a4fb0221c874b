-- ===== src/Words.antt =====
-- src/runtime.rs: the packed words of a header.
pub mod Bits
pub mod ArbitraryInt
pub mod Shared
pub mod Biased
