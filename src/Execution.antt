-- ===== src/Execution.antt =====
-- execution/
pub mod Status
pub mod Models
pub mod Control
pub mod KillSwitch
pub mod Environment
pub mod Examples
pub mod Engine
pub mod Reconciliation
pub mod Routing
pub mod Paper
