-- ===== src/Risk/Engine.antt =====
-- trading/risk/engine.py: `RiskEngine.evaluate`, one function for each numbered part of its body, and
-- what its results mean.
pub mod Gates
pub mod Quantities
pub mod Exposure
pub mod Body
pub mod Refusals
pub mod Approvals
pub mod Authority
pub mod Cuts
pub mod Bounds
pub mod Intent
pub mod Opening
mod Examples
