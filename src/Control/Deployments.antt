-- ===== src/Control/Deployments.antt =====
-- The deployment controller, apps/api/src/modules/deployments/controller.ts: the candidates of a
-- placement, host ports, volume claims, the placement of one replica, the reconciliation, and
-- the switch between revisions; and the creation of revisions,
-- apps/api/src/modules/deployments/service.ts.
pub mod Candidates
pub mod Assign
pub mod Claims
pub mod Placement
pub mod Reconcile
pub mod Revisions
pub mod Switch
