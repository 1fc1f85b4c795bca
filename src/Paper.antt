-- ===== src/Paper.antt =====
-- Paper trading: paper/ and trading/paper/.
pub mod Runtime
pub mod Outcome
pub mod Lifecycle
pub mod Exits
mod Examples
