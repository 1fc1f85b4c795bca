-- ===== src/Risk.antt =====
-- trading/risk
pub mod Contracts
pub mod Transitions
pub mod Limits
pub mod Sizing
pub mod Decision
pub mod Input
pub mod Engine
