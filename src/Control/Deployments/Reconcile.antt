-- ===== src/Control/Deployments/Reconcile.antt =====
-- `reconcileDeployment` and what calls it: the lease, the branches by desired state, the checks before a
-- placement, and the loop over the missing replicas.
-- One time is read in a reconciliation. The loop decrements its index when a volume claim moves it
-- to another node, so it takes fuel; `none` means that the fuel ran out.
pub mod Lease
pub mod Fuel
pub mod Bound
use devion.Prelude.{
  ℕ, zero, suc, ◌+◌, ◌-◌, ◌*◌, String, Bool, true, false, ◌&&◌, ◌||◌, not, Option, none, some, List,
  [], ◌∷◌, ◌++◌, ltb, leb, ◌==◌, ◌===◌, if◌then◌else◌, filter, all, any, length, is_nil,
}
use devion.Core.Contracts.{WorkloadRequirements, NodeSnapshot, HostPort}
use devion.Core.Scheduler.{SchedulingDecision, Reason, schedule_workload}
use devion.Control.Store.{
  DesiredState, is_running, is_deleted, DeploymentStatus, RecoveryState, Workload, RuntimePort,
  Deployment, DeploymentEvent, Db, workload_recovery_requested, deployment_superseded, update_where,
  find_deployment, workloads_of,
}
use devion.Control.Env.{Env}
use devion.Control.Lifecycle.{
  actual_lost, actual_failed, actual_running, health_settled, wants_running,
}
use devion.Control.Refresh.{refresh_deployment_status}
use devion.Control.Commands.{Change, delete, request_all}
use devion.Control.Deployments.Candidates.{load_candidates}
use devion.Control.Deployments.Assign.{requested_host_ports}
use devion.Control.Deployments.Claims.{
  Claim, stop, moved, kept, managed_volume_ids, check_volumes, claim_volumes, fail_deployment,
}
use devion.Control.Deployments.Placement.{
  Job, Placed, halted, placed, place, exhausted, health_failure_threshold,
}

-- How a reconciliation ends: it returns, or the schema of the requirements throws.
pub data Outcome : Type 0 where
  returned invalid_requirements : Outcome

abbrev pub is_manual : RecoveryState → Bool
is_manual RecoveryState.manual_intervention = true
is_manual _ = false

abbrev pub is_idle : RecoveryState → Bool
is_idle RecoveryState.idle = true
is_idle _ = false

abbrev pub is_later : Option ℕ → ℕ → Bool
is_later none now = false
is_later (some t) now = ltb now t

abbrev pub is_unhealthy : Workload → Bool
is_unhealthy w =
    wants_running w
    && (actual_failed w.actual_state || leb health_failure_threshold w.health_failure_count)

-- A lost workload counts only where volumes keep it on its node.
abbrev pub is_counted : Bool → Workload → Bool
is_counted persistent w = wants_running w && (persistent || not (actual_lost w.actual_state))

abbrev pub settled : Workload → Bool
settled w = actual_running w.actual_state && health_settled w.health_status

-- `{ ...requirements, requestedHostPorts }`, where there are any.
abbrev pub with_ports : List HostPort → WorkloadRequirements → WorkloadRequirements
with_ports [] r = r
with_ports (p ∷ ps) r = record r { requested_host_ports = some (p ∷ ps) }

module _ (env : Env) where
  open env use {Json, uuid, parse_requirements, parse_volumes, parse_ports, platform}

  abbrev pub refreshed : ℕ → String → Db Json → Db Json
  refreshed now id db = (refresh_deployment_status now id db).1

  -- The loop over the missing replicas, with the fuel and the replicas that are left.
  unfoldable pub place_missing :
      ℕ
      → ℕ
      → Job env
      → List String
      → WorkloadRequirements
      → List NodeSnapshot
      → Db Json
      → Option (Db Json)
  place_missing zero left job ids r candidates db = none
  place_missing (suc fuel) zero job ids r candidates db =
      some (refreshed job.now job.deployment.id db)
  place_missing (suc fuel) (suc left) job ids r candidates db =
      let decision = schedule_workload platform candidates r in
      elim (is_manual job.deployment.recovery_state) [
        | true ↦ some (fail_deployment job.deployment.id exhausted db)
        | false ↦ elim (is_later job.deployment.recovery_next_attempt_at job.now) [
          | true ↦ some db
          | false ↦ elim decision.node_id [
            | none ↦ some (refreshed job.now job.deployment.id db)
            | some node_id ↦ elim (claim_volumes env job.deployment.id ids node_id r db) [
              | stop db' ↦ some db'
              | moved r' db' ↦ place_missing fuel (suc left) job ids r' candidates db'
              | kept r' db' ↦ elim (place env job node_id decision.reasons r' candidates db') [
                | halted db'' ↦ some db''
                | placed r'' candidates' db'' ↦ place_missing fuel left job ids r'' candidates' db''
              ]
            ]
          ]
        ]
      ]

  abbrev pub fuel_for : ℕ → ℕ
  fuel_for left = suc (2 * left)

  abbrev pub recovery_event : String → Workload → DeploymentEvent
  recovery_event id w = record {
    deployment_id = id;
    type = workload_recovery_requested;
    workload_id = some w.id;
    node_id = w.node_id;
    reason =
        some (if actual_failed w.actual_state then "RUNTIME_EXITED" else "HEALTH_CHECK_FAILED");
  }

  abbrev pub recovery_events : String → List Workload → List DeploymentEvent
  recovery_events id [] = []
  recovery_events id (w ∷ ws) = recovery_event id w ∷ recovery_events id ws

  -- Unhealthy workloads are retired before any is replaced.
  unfoldable pub retire_unhealthy : ℕ → String → List Workload → Db Json → Db Json
  retire_unhealthy now id unhealthy db =
      let db' = request_all env now Change.stop unhealthy db in
      refreshed now id (record db' { events = db'.events ++ recovery_events id unhealthy })

  -- No replica is missing: a recovery that has settled is over.
  unfoldable pub settle_recovery : ℕ → Deployment Json → List Workload → Db Json → Db Json
  settle_recovery now d active db =
      let reset = record db {
        deployments =
            update_where (λ e. e.id === d.id)
              (λ e. record e {
                recovery_attempts = 0;
                recovery_next_attempt_at = none;
                recovery_state = RecoveryState.idle;
              })
              db.deployments;
      } in
      refreshed now d.id
        (if not (is_idle d.recovery_state) && all settled active then reset else db)

  abbrev pub place_all :
      Job env → List String → WorkloadRequirements → ℕ → Db Json → Option (Db Json)
  place_all job ids r missing db =
      place_missing (fuel_for missing) missing job ids r (load_candidates env db) db

  unfoldable pub reconcile_replicas :
      Job env → List String → WorkloadRequirements → Db Json → Option (Db Json)
  reconcile_replicas job ids r db =
      let unhealthy = filter is_unhealthy job.current in
      let active = filter (is_counted job.persistent) job.current in
      let missing = job.deployment.replicas - length active in
      if not job.persistent && not (is_nil unhealthy)
      then some (retire_unhealthy job.now job.deployment.id unhealthy db)
      else if missing == 0
      then some (settle_recovery job.now job.deployment active db)
      else place_all job ids r missing db

  abbrev pub after_check : Job env → List String → Claim Json → Option (Db Json)
  after_check job ids (stop db) = some db
  after_check job ids (moved r db) = reconcile_replicas job ids r db
  after_check job ids (kept r db) = reconcile_replicas job ids r db

  -- A deployment that shall run.
  unfoldable pub reconcile_running :
      ℕ → Deployment Json → WorkloadRequirements → Db Json → Option (Db Json)
  reconcile_running now d r db =
      let volumes = parse_volumes d.runtime_config in
      let requested = requested_host_ports (parse_ports d.runtime_config) in
      let ids = managed_volume_ids volumes in
      let job : Job env = record {
        now = now;
        deployment = d;
        current = workloads_of d.id db;
        persistent = not (is_nil volumes);
      } in
      if not (is_nil requested) && ltb 1 d.replicas
      then some (fail_deployment d.id "Fixed public host ports require a single replica" db)
      else after_check job ids (check_volumes env d.id ids (with_ports requested r) db)

  -- A deployment that shall not run.
  unfoldable pub wind_down : ℕ → Deployment Json → Db Json → Db Json
  wind_down now d db = refreshed now d.id (
      request_all env now (if is_deleted d.desired_state then delete else Change.stop)
        (workloads_of d.id db) db)

  abbrev pub returning : Option (Db Json) → Option (Outcome × Db Json)
  returning none = none
  returning (some db) = some (returned, db)

  unfoldable pub reconcile_found :
      ℕ → Deployment Json → Option WorkloadRequirements → Db Json → Option (Outcome × Db Json)
  reconcile_found now d none db = some (invalid_requirements, db)
  reconcile_found now d (some r) db =
      if is_running d.desired_state
      then returning (reconcile_running now d r db)
      else some (returned, wind_down now d db)

  unfoldable pub reconcile_deployment_claimed : ℕ → String → Db Json → Option (Outcome × Db Json)
  reconcile_deployment_claimed now id db = elim (find_deployment id db) [
    | none ↦ some (returned, db)
    | some d ↦ reconcile_found now d (parse_requirements d.requirements) db
  ]

  -- `reconcileLeaseUntil IS NULL OR reconcileLeaseUntil < now`.
  abbrev pub lease_is_free : ℕ → Option ℕ → Bool
  lease_is_free now none = true
  lease_is_free now (some until) = ltb until now

  abbrev pub can_lease : ℕ → String → Deployment Json → Bool
  can_lease now id d = d.id === id && lease_is_free now d.reconcile_lease_until

  abbrev pub lease : ℕ → String → String → Db Json → Db Json
  lease now lease_id id db = record db {
    deployments =
        update_where (can_lease now id)
          (λ d. record d {
            reconcile_lease_id = some lease_id;
            reconcile_lease_until = some (now + 60000);
          })
          db.deployments;
    fresh = suc db.fresh;
  }

  abbrev pub holds : String → Option String → Bool
  holds lease_id none = false
  holds lease_id (some l) = l === lease_id

  abbrev pub release : String → String → Db Json → Db Json
  release lease_id id db = record db {
    deployments =
        update_where (λ d. d.id === id && holds lease_id d.reconcile_lease_id)
          (λ d. record d { reconcile_lease_id = none; reconcile_lease_until = none })
          db.deployments;
  }

  -- The `finally` block runs however the reconciliation ends.
  abbrev pub finally : String → String → Option (Outcome × Db Json) → Option (Outcome × Db Json)
  finally lease_id id none = none
  finally lease_id id (some (outcome, db)) = some (outcome, release lease_id id db)

  unfoldable pub reconcile_deployment : ℕ → String → Db Json → Option (Outcome × Db Json)
  reconcile_deployment now id db =
      let lease_id = uuid db.fresh in
      if any (can_lease now id) db.deployments
      then finally lease_id id (reconcile_deployment_claimed now id (lease now lease_id id db))
      else some (returned, record db { fresh = suc db.fresh })
