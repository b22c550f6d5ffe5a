-- ===== src/Builder.antt =====
-- The Builder: apps/builder/src.
pub mod Runs
pub mod Secrets
pub mod Workflow
pub mod Execution
pub mod Logs
mod Tests
