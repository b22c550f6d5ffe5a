-- ===== src/Control/Refresh.antt =====
-- Storing a deployment's derived status: `refreshDeploymentStatus` and `refreshApplicationStatus` of
-- apps/api/src/modules/deployments/service.ts. A query with `findFirst` and no order takes the
-- first row of the table.
pub mod Laws
use devion.Prelude.{
  ℕ, String, Bool, true, false, ◌&&◌, not, Option, none, some, List, [], ◌∷◌, ◌++◌, ltb, ◌==◌,
  ◌===◌, if◌then◌else◌, is_some, filter,
}
use devion.Control.Store.{
  is_running, DeploymentStatus, ApplicationStatus, deployment_status_changed, Deployment,
  DeploymentEvent, Application, Db, update_where, find_deployment, workloads_of,
}
use devion.Control.Lifecycle.{Derived, derive_deployment_status}

abbrev pub status_code : DeploymentStatus → ℕ
status_code DeploymentStatus.queued = 0
status_code DeploymentStatus.scheduling = 1
status_code DeploymentStatus.starting = 2
status_code DeploymentStatus.running = 3
status_code DeploymentStatus.degraded = 4
status_code DeploymentStatus.failed = 5
status_code DeploymentStatus.stopping = 6
status_code DeploymentStatus.stopped = 7
status_code DeploymentStatus.superseded = 8

abbrev pub same_status : DeploymentStatus → DeploymentStatus → Bool
same_status s t = status_code s == status_code t

abbrev pub same_text : Option String → Option String → Bool
same_text none none = true
same_text (some s) (some t) = s === t
same_text _ _ = false

abbrev pub is_superseded : DeploymentStatus → Bool
is_superseded DeploymentStatus.superseded = true
is_superseded _ = false

-- The status of an application for that of its latest deployment, if that shall run.
abbrev pub application_status_of : DeploymentStatus → ApplicationStatus
application_status_of DeploymentStatus.running = ApplicationStatus.healthy
application_status_of DeploymentStatus.degraded = ApplicationStatus.degraded
application_status_of DeploymentStatus.failed = ApplicationStatus.failed
application_status_of _ = ApplicationStatus.deploying

abbrev pub status_event : String → Derived → DeploymentEvent
status_event id next = record {
  deployment_id = id;
  type = deployment_status_changed next.status;
  workload_id = none;
  node_id = none;
  reason = next.failure_reason;
}

module _ {J : Type 0} where
  -- The first of the deployments with the greatest creation time.
  unfoldable pub latest : List (Deployment J) → Option (Deployment J)
  latest [] = none
  latest (d ∷ ds) = elim (latest ds) [
    | none ↦ some d
    | some e ↦ if ltb d.created_at e.created_at then some e else some d
  ]

  abbrev pub current_status : Option (Deployment J) → ApplicationStatus
  current_status none = ApplicationStatus.stopped
  current_status (some d) =
      if is_running d.desired_state
      then application_status_of d.status
      else ApplicationStatus.stopped

  unfoldable pub refresh_application_status : String → Db J → Db J
  refresh_application_status application_id db =
      let current = latest (filter (λ d. d.application_id === application_id) db.deployments) in
      record db {
        applications =
            update_where (λ a. a.id === application_id)
              (λ a. record a { status = current_status current }) db.applications;
      }

  -- The columns that a change of status writes.
  abbrev pub write_status : ℕ → Derived → Deployment J → Deployment J → Deployment J
  write_status now next seen row =
      let row' = record row {
        status = next.status;
        failure_reason = next.failure_reason;
        failed_at =
            if same_status next.status DeploymentStatus.failed then some now else row.failed_at;
      } in
      if same_status next.status DeploymentStatus.running && not (is_some seen.started_at)
      then record row' { started_at = some now; completed_at = some now }
      else row'

  -- The transaction that stores the new status and its event.
  unfoldable pub store_status : ℕ → Deployment J → Derived → Db J → Db J
  store_status now seen next db = record db {
    deployments =
        update_where (λ d. d.id === seen.id && same_status d.status seen.status)
          (write_status now next seen) db.deployments;
    events = db.events ++ status_event seen.id next ∷ [];
  }

  unfoldable pub refresh_found : ℕ → Deployment J → Db J → Option DeploymentStatus × Db J
  refresh_found now deployment db =
      if is_superseded deployment.status && not (is_running deployment.desired_state)
      then (some deployment.status, db)
      else let next =
          derive_deployment_status deployment.desired_state deployment.replicas
            (workloads_of deployment.id db) in
        if same_status deployment.status next.status
          && same_text deployment.failure_reason next.failure_reason
        then (some next.status, db)
        else (
          some next.status,
          refresh_application_status deployment.application_id
              (store_status now deployment next db),
        )

  unfoldable pub refresh_deployment_status : ℕ → String → Db J → Option DeploymentStatus × Db J
  refresh_deployment_status now id db = elim (find_deployment id db) [
    | none ↦ (none, db)
    | some deployment ↦ refresh_found now deployment db
  ]
