-- ===== src/Control/Lifecycle.antt =====
-- The status of a deployment as a function of its workloads:
-- apps/api/src/modules/deployments/lifecycle.ts.
pub mod Status
use devion.Prelude.{
  ℕ, String, Bool, true, false, ◌&&◌, ◌||◌, Option, none, some, List, ltb, ◌==◌, if◌then◌else◌,
  length, or_else, filter, find, any, all,
}
use devion.Control.Store.{
  DesiredState, is_running, is_deleted, ActualState, HealthStatus, DeploymentStatus, Workload,
}

pub record Derived : Type 0 where
  pub status : DeploymentStatus
  pub failure_reason : Option String

abbrev pub actual_lost : ActualState → Bool
actual_lost ActualState.lost = true
actual_lost _ = false

abbrev pub actual_failed : ActualState → Bool
actual_failed ActualState.failed = true
actual_failed _ = false

abbrev pub actual_running : ActualState → Bool
actual_running ActualState.running = true
actual_running _ = false

abbrev pub actual_stopped : ActualState → Bool
actual_stopped ActualState.stopped = true
actual_stopped _ = false

abbrev pub health_unhealthy : HealthStatus → Bool
health_unhealthy HealthStatus.unhealthy = true
health_unhealthy _ = false

-- `healthStatus === "healthy" || healthStatus === "none"`.
abbrev pub health_settled : HealthStatus → Bool
health_settled HealthStatus.healthy = true
health_settled HealthStatus.none = true
health_settled _ = false

abbrev pub workload_was_lost : String
workload_was_lost = "A workload was lost with its node"

abbrev pub workload_failed : String
workload_failed = "A workload failed"

abbrev pub workload_is_unhealthy : String
workload_is_unhealthy = "A workload is unhealthy"

abbrev pub wants_running : Workload → Bool
wants_running w = is_running w.desired_state

abbrev result : DeploymentStatus → Option String → Derived
result status reason = record { status = status; failure_reason = reason }

-- The branches for a deployment that shall run, from the failed workloads on.
unfoldable pub derive_failed : ℕ → List Workload → Option Workload → Derived
derive_failed replicas active (some failure) =
    result
      (if any (λ w. actual_running w.actual_state) active
        then DeploymentStatus.degraded
        else DeploymentStatus.failed)
      (some (or_else failure.health_message workload_failed))
derive_failed replicas active none =
    if any (λ w. health_unhealthy w.health_status) active
    then result DeploymentStatus.degraded (some workload_is_unhealthy)
    else if ltb (length active) replicas
    then result
        (if length active == 0 then DeploymentStatus.scheduling else DeploymentStatus.starting) none
    else if all (λ w. actual_running w.actual_state) active
        && all (λ w. health_settled w.health_status) active
    then result DeploymentStatus.running none
    else result DeploymentStatus.starting none

unfoldable pub derive_active : ℕ → List Workload → Option Workload → Derived
unfolding derive_failed
derive_active replicas active (some lost) =
    result DeploymentStatus.degraded (some (or_else lost.health_message workload_was_lost))
derive_active replicas active none =
    derive_failed replicas active (find (λ w. actual_failed w.actual_state) active)

unfoldable pub derive_deployment_status : DesiredState → ℕ → List Workload → Derived
unfolding derive_active
derive_deployment_status desired_state replicas items =
    let active = filter wants_running items in
    if is_running desired_state
    then derive_active replicas active (find (λ w. actual_lost w.actual_state) active)
    else result
        (if all (λ w. actual_stopped w.actual_state || is_deleted w.desired_state) items
          then DeploymentStatus.stopped
          else DeploymentStatus.stopping)
        none
