-- ===== src/Portfolio.antt =====
-- The portfolio boundary: portfolio/.
pub mod Contracts
pub mod Transition
pub mod Exposure
pub mod Manager
pub mod Within
pub mod Handover
mod Examples
