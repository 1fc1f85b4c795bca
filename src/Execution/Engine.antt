-- ===== src/Execution/Engine.antt =====
-- `ExecutionEngine` of execution/engine.py.
pub mod State
pub mod Requests
pub mod Submission
pub mod Recovery
pub mod Queries
pub mod Positions
pub mod Operations
pub mod Keeps
pub mod Journal
pub mod Once
pub mod Sends
pub mod Submissions
pub mod Authorized
pub mod Books
pub mod Answers
