-- ===== src/Control.antt =====
-- The control plane's controllers over its database (apps/api/src/modules).
pub mod Store
pub mod Env
pub mod Lifecycle
pub mod Refresh
pub mod Commands
pub mod Deployments
pub mod Liveness
pub mod Volumes
mod Tests
pub mod Agents
