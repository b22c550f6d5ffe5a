-- ===== src/Core.antt =====
-- The runtime-neutral parts that the control plane and the agents share (packages/core/src).
pub mod Contracts
pub mod Ports
pub mod Scheduler
pub mod RateLimit
pub mod Health
pub mod Errors
pub mod Tests
