-- ===== src/Execution/Paper.antt =====
-- execution/adapters/paper.py: the in-memory broker with deterministic fills.
pub mod Fills
pub mod Broker
pub mod Positions
pub mod Contract
mod Examples
