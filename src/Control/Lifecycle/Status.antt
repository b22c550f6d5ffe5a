-- ===== src/Control/Lifecycle/Status.antt =====
-- When a deployment counts as running, failed or stopped, and when it has a reason to show.
use devion.Prelude.{
  ℕ, ◌≤◌, ◌≡◌, refl, ◌≢◌, ◌↔◌, ◌⊎◌, Bool, true, false, ◌&&◌, none, List, [], ◌∷◌, length, filter,
  find, any, all, arith,
}
use devion.Control.Store.{DesiredState, DeploymentStatus, Workload, is_running}
use devion.Control.Lifecycle.{
  actual_lost, actual_failed, actual_running, health_unhealthy, health_settled, wants_running,
  derive_deployment_status,
}

-- A workload that serves: it runs, and its health check has passed or does not exist.
abbrev pub serves : Workload → Bool
serves w = actual_running w.actual_state && health_settled w.health_status

serves_healthy :
    (ws : List Workload)
    → all serves ws ≡ true
    → (find (λ w. actual_lost w.actual_state) ws ≡ none)
      × (find (λ w. actual_failed w.actual_state) ws ≡ none)
      × (any (λ w. health_unhealthy w.health_status) ws ≡ false)
      × (all (λ w. actual_running w.actual_state) ws ≡ true)
      × (all (λ w. health_settled w.health_status) ws ≡ true)
serves_healthy [] h = (refl, refl, refl, refl, refl)
serves_healthy (w ∷ ws) h = ground (arith, serves_healthy ws)

serves_of_all :
    (ws : List Workload)
    → all (λ w. actual_running w.actual_state) ws ≡ true
    → all (λ w. health_settled w.health_status) ws ≡ true
    → all serves ws ≡ true
serves_of_all [] h k = refl
serves_of_all (w ∷ ws) h k = ground (arith, serves_of_all ws)

-- A deployment counts as running exactly when it shall run, has at least the wanted number of
-- workloads that shall run, and every one of these serves.
pub derive_running_iff :
    (d : DesiredState) (replicas : ℕ) (ws : List Workload)
    → ((derive_deployment_status d replicas ws).status ≡ DeploymentStatus.running) ↔ (
        (is_running d ≡ true)
        × (replicas ≤ length (filter wants_running ws))
        × (all serves (filter wants_running ws) ≡ true))
unfolding derive_deployment_status
derive_running_iff d replicas ws = (
  λ h. ground (arith, serves_of_all (filter wants_running ws)),
  λ h. ground (arith, serves_healthy (filter wants_running ws)),
)

any_of_find : (p : Workload → Bool) (ws : List Workload) → (find p ws ≡ none) ↔ (any p ws ≡ false)
any_of_find p [] = (λ h. refl, λ h. refl)
any_of_find p (w ∷ ws) =
    (ground (arith, (any_of_find p ws).0), ground (arith, (any_of_find p ws).1))

-- A deployment counts as failed exactly when it shall run, and of its workloads that shall run
-- none is lost, some has failed and none runs.
pub derive_failed_iff :
    (d : DesiredState) (replicas : ℕ) (ws : List Workload)
    → ((derive_deployment_status d replicas ws).status ≡ DeploymentStatus.failed) ↔ (
        (is_running d ≡ true)
        × (any (λ w. actual_lost w.actual_state) (filter wants_running ws) ≡ false)
        × (any (λ w. actual_failed w.actual_state) (filter wants_running ws) ≡ true)
        × (any (λ w. actual_running w.actual_state) (filter wants_running ws) ≡ false))
unfolding derive_deployment_status
derive_failed_iff d replicas ws =
    let active = filter wants_running ws in
    (
      λ h. ground (
        arith,
        any_of_find (λ w. actual_lost w.actual_state) active,
        any_of_find (λ w. actual_failed w.actual_state) active,
      ),
      λ h. ground (
        arith,
        any_of_find (λ w. actual_lost w.actual_state) active,
        any_of_find (λ w. actual_failed w.actual_state) active,
      ),
    )

-- The derivation gives a reason exactly when it reports a degraded or failed deployment, and it
-- never reports one as queued or superseded.
pub derive_reason_iff :
    (d : DesiredState) (replicas : ℕ) (ws : List Workload)
    → let r = derive_deployment_status d replicas ws in
      ((r.failure_reason ≢ none)
        ↔ ((r.status ≡ DeploymentStatus.degraded) ⊎ (r.status ≡ DeploymentStatus.failed)))
      × (r.status ≢ DeploymentStatus.queued)
      × (r.status ≢ DeploymentStatus.superseded)
unfolding derive_deployment_status
derive_reason_iff d replicas ws = ((ground arith, ground arith), ground arith, ground arith)
