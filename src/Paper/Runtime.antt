-- ===== src/Paper/Runtime.antt =====
-- paper/runtime.py: the paper account that fills authorized orders.
pub mod Orders
pub mod Fills
pub mod Submit
pub mod Account
pub mod Authority
