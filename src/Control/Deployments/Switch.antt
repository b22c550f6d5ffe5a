-- ===== src/Control/Deployments/Switch.antt =====
-- The switch between revisions: `restartDeploymentWorkloads`, `supersedePreviousDeployments` and
-- `stopApplicationWorkloads` of apps/api/src/modules/deployments/controller.ts.
pub mod Sole
use devion.Prelude.{
  ℕ, String, Bool, ◌&&◌, Option, none, some, List, [], ◌∷◌, ◌++◌, ◌===◌, if◌then◌else◌, filter,
}
use devion.Control.Store.{
  DesiredState, is_running, DeploymentStatus, deployment_superseded, Deployment, DeploymentEvent,
  Db, update_where, workloads_of,
}
use devion.Control.Env.{Env}
use devion.Control.Commands.{Change, request_all}
use devion.Control.Deployments.Reconcile.{Outcome, reconcile_deployment}

module _ (env : Env) where
  open env use {Json}

  unfoldable pub restart_deployment_workloads : ℕ → String → Db Json → Option (Outcome × Db Json)
  restart_deployment_workloads now id db =
      reconcile_deployment env now id (request_all env now Change.stop (workloads_of id db) db)

  abbrev pub mark_superseded : Deployment Json → Deployment Json
  mark_superseded d = record d {
    desired_state = DesiredState.stopped;
    status = DeploymentStatus.superseded;
    failure_reason = none;
  }

  abbrev pub superseded_event : String → DeploymentEvent
  superseded_event id = record {
    deployment_id = id;
    type = deployment_superseded;
    workload_id = none;
    node_id = none;
    reason = none;
  }

  -- The transaction that supersedes a deployment.
  abbrev pub store_superseded : String → Db Json → Db Json
  store_superseded id db = record db {
    deployments = update_where (λ d. d.id === id) mark_superseded db.deployments;
    events = db.events ++ superseded_event id ∷ [];
  }

  unfoldable pub supersede : ℕ → String → Db Json → Db Json
  supersede now id db =
      let db' = store_superseded id db in request_all env now Change.stop (workloads_of id db') db'

  unfoldable pub supersede_all : ℕ → String → List (Deployment Json) → Db Json → Db Json
  supersede_all now current_id [] db = db
  supersede_all now current_id (d ∷ ds) db =
      if d.id === current_id
      then supersede_all now current_id ds db
      else supersede_all now current_id ds (supersede now d.id db)

  abbrev pub runs_for : String → Deployment Json → Bool
  runs_for application_id d = d.application_id === application_id && is_running d.desired_state

  unfoldable pub supersede_previous_deployments : ℕ → String → String → Db Json → Db Json
  supersede_previous_deployments now application_id current_id db =
      supersede_all now current_id (filter (runs_for application_id) db.deployments) db

  abbrev pub store_stopped : String → Db Json → Db Json
  store_stopped id db = record db {
    deployments =
        update_where (λ d. d.id === id) (λ d. record d { desired_state = DesiredState.stopped })
          db.deployments;
  }

  unfoldable pub stop_all : ℕ → List (Deployment Json) → Db Json → Db Json
  stop_all now [] db = db
  stop_all now (d ∷ ds) db =
      let db' = store_stopped d.id db in
      stop_all now ds (request_all env now Change.stop (workloads_of d.id db') db')

  unfoldable pub stop_application_workloads : ℕ → String → Db Json → Db Json
  stop_application_workloads now application_id db =
      stop_all now (filter (λ d. d.application_id === application_id) db.deployments) db
