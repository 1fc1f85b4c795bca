-- ===== src/Float.antt =====
-- Python's `float`, which the models take as a type with the operations that the program calls.
mod Defs
pub mod Fixed
pub use Defs.*
