-- ===== src/Control/Tests/Status.antt =====
-- The status of a deployment, state changes and timeouts on small tables.
use devion.Prelude.{
  ℕ, ◌≤◌, ◌≡◌, refl, inl, ◌↔◌, true, false, ◌&&◌, some, List, [], ◌∷◌, ◌++◌, if◌then◌else◌, ◌∈◌,
  any, all, filter, length, arith,
}
use devion.Control.Store.{
  Workload, workloads_of, CommandStatus, ActualState, DeploymentStatus, DesiredState, Deployment,
  Db, find_deployment, AgentCommand,
}
use devion.Control.Lifecycle.{wants_running, derive_deployment_status}
use devion.Control.Lifecycle.Status.{serves, derive_running_iff}
use devion.Control.Refresh.{
  same_status, same_text, status_event, refresh_deployment_status, refresh_found,
  refresh_application_status, store_status,
}
use devion.Control.Refresh.Laws.{refresh_deployment_status_stores}
use devion.Control.Commands.{
  Change, is_open_for, command_type, is_expired, request_state_change, time_out, time_out_all,
  fail_open, settle, time_out_workload, command_timeout_tick,
}
use devion.Control.Commands.Requests.{
  IsUnique, request_state_change-IsUnique, request_state_change_idem,
}
use devion.Control.Commands.Timeouts.{command_timeout_tick_expired}
use devion.Control.Tests.{env, web, task, start, plane}

abbrev tasks : List Workload
tasks = task ActualState.running ∷ task ActualState.failed ∷ []

derive_running_iff_example :
    ((derive_deployment_status DesiredState.running 2 tasks).status ≡ DeploymentStatus.running) ↔ (
      (true ≡ true)
      × (2 ≤ length (filter wants_running tasks))
      × (all serves (filter wants_running tasks) ≡ true))
derive_running_iff_example = derive_running_iff DesiredState.running 2 tasks

refresh_deployment_status_stores_example :
    let db = plane 0 tasks [] in
    let d = web 0 in
    let next = derive_deployment_status d.desired_state d.replicas (workloads_of d.id db) in
    let (answer, after) = refresh_deployment_status 5 d.id db in
    (answer ≡ some next.status)
    × ((d' : Deployment ℕ) × (find_deployment d.id after ≡ some d')
        × (d'.status ≡ next.status)
        × (d'.failure_reason ≡ next.failure_reason))
    × (after.events ≡ (
        if same_status d.status next.status && same_text d.failure_reason next.failure_reason
        then db.events
        else db.events ++ status_event d.id next ∷ []))
    × (after.workloads ≡ db.workloads)
refresh_deployment_status_stores_example =
    refresh_deployment_status_stores 5 (web 0) (plane 0 tasks []) refl refl

abbrev busy : Db ℕ
busy = plane 0 (task ActualState.running ∷ []) (start ∷ [])

busy-IsUnique : IsUnique env busy
busy-IsUnique resource type = ground arith

request_state_change-IsUnique_example :
    IsUnique env (request_state_change env 9 (task ActualState.running) Change.stop busy)
request_state_change-IsUnique_example =
    request_state_change-IsUnique env 9 (task ActualState.running) Change.stop busy busy-IsUnique

request_state_change_idem_example :
    let w = task ActualState.running in
    let db' = request_state_change env 9 w Change.delete busy in
    (any (is_open_for w.id (command_type Change.delete)) db'.commands ≡ true)
    × (request_state_change env 19 w Change.delete db' ≡ db')
request_state_change_idem_example =
    request_state_change_idem env 9 19 (task ActualState.running) "idle" Change.delete busy refl
      refl

-- The overdue start command fails.
abbrev overdue : AgentCommand ℕ
overdue = record start { status = CommandStatus.failed; completed_at = some 130000 }

overdue_stays : overdue ∈ (command_timeout_tick env 130000 busy).commands
unfolding command_timeout_tick time_out_all time_out fail_open settle time_out_workload
    refresh_deployment_status refresh_found refresh_application_status store_status
    derive_deployment_status
overdue_stays = inl refl

command_timeout_tick_expired_example : is_expired 130000 overdue ≡ false
command_timeout_tick_expired_example =
    command_timeout_tick_expired env 130000 overdue busy overdue_stays
