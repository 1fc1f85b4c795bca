-- ===== src/Paper/Exits.antt =====
-- trading/paper/exit_engine.py: the paper positions that candles close.
pub mod Engine
pub mod Trades
pub mod Opened
pub mod Accounts
pub mod Closings
pub mod Runs
