-- ===== src/Automation.antt =====
-- The automation control plane: automation/.
pub mod Contracts
pub mod Surroundings
pub mod Orchestrator
pub mod Modes
pub mod Stored
pub mod Rounds
pub mod Recorded
mod Examples
