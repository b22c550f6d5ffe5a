-- ===== src/Access.antt =====
-- Who may do what: apps/api/src/features/organizations and apps/api/src/features/projects.
pub mod Permissions
pub mod Projects
mod Tests
