-- ===== src/Wire.antt =====
-- Python's `bytes`, `struct` and the exceptions that the servers' code can raise.
mod Outcome
mod Struct
pub mod Texts
pub mod Decimal
pub mod Bits
pub mod Ints
pub mod Slices
pub mod Ensures
pub mod Exec
pub mod Keeps
pub mod Progress
pub use Outcome.*
unfoldable pub use Struct.*
