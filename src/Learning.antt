-- ===== src/Learning.antt =====
-- The learning cycle: learning/ and self_learning/.
pub mod Stages
pub mod Promotion
pub mod Champion
pub mod Store
pub mod Candidate
mod Examples
