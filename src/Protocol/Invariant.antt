-- ===== src/Protocol/Invariant.antt =====
-- What every call keeps, as long as no thread clones hastily.
mod Views
mod Defs
mod Steps
pub use Views.{is_waiting, IsShared}
pub use Defs.*
pub use Steps.*
