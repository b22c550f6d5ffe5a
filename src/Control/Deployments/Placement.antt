-- ===== src/Control/Deployments/Placement.antt =====
-- The placement of one missing replica, from the chosen node on: host ports, the recovery budget, and
-- the transaction that inserts the workload, its reservations, its events and its start command.
-- One time is read in a placement.
pub mod Recovery
pub mod Rows
use devion.Prelude.{
  ℕ, zero, suc, ◌+◌, ◌-◌, ◌*◌, ◌^◌, min, String, Bool, true, false, ◌&&◌, ◌||◌, not, Option, none,
  some, List, [], ◌∷◌, ◌++◌, ltb, leb, ◌==◌, ◌===◌, if◌then◌else◌, find, length,
}
use devion.Core.Contracts.{WorkloadRequirements, NodeSnapshot}
use devion.Core.Scheduler.{Reason}
use devion.Control.Store.{
  DesiredState, ActualState, HealthStatus, DeploymentStatus, RecoveryState, EventType,
  CommandStatus, CommandType, workload_start, Payload, AgentCommand, Workload, RuntimePort,
  PortReservation, Deployment, DeploymentEvent, Db, deployment_manual_intervention_required,
  workload_replacement_requested, workload_port_reservation_failed, update_where,
}
use devion.Control.Env.{Env}
use devion.Control.Lifecycle.{actual_lost, actual_failed}
use devion.Control.Commands.{command_deadline_ms}
use devion.Control.Deployments.Candidates.{active_ports, reserve}
use devion.Control.Deployments.Assign.{
  AssignedPort, public_ports, assign_host_ports, rewrite_ports, reservation, insert_reservations,
}
use devion.Control.Deployments.Claims.{fail_deployment, require_node, set_requirements}

abbrev pub health_failure_threshold : ℕ
health_failure_threshold = 3

abbrev pub max_recovery_attempts : ℕ
max_recovery_attempts = 5

abbrev pub recovery_backoff_base_ms : ℕ
recovery_backoff_base_ms = 30000

abbrev pub recovery_backoff_max_ms : ℕ
recovery_backoff_max_ms = 600000

-- `Math.min(BASE * 2 ** Math.max(0, attempt - 1), MAX)`.
unfoldable pub backoff_ms : ℕ → ℕ
backoff_ms attempt = min (recovery_backoff_base_ms * 2 ^ (attempt - 1)) recovery_backoff_max_ms

abbrev pub needs_replacement : Workload → Bool
needs_replacement w =
    actual_lost w.actual_state
    || actual_failed w.actual_state
    || leb health_failure_threshold w.health_failure_count

abbrev pub replacement_reason : Workload → String
replacement_reason w =
    if actual_lost w.actual_state
    then "NODE_OFFLINE"
    else if actual_failed w.actual_state
    then "RUNTIME_EXITED"
    else "HEALTH_CHECK_FAILED"

abbrev pub exhausted : String
exhausted = "Automatic recovery attempts exhausted"

abbrev pub attempt_after : Option Workload → ℕ → ℕ
attempt_after none attempts = attempts
attempt_after (some _) attempts = attempts + 1

abbrev pub id_of : Option Workload → Option String
id_of none = none
id_of (some w) = some w.id

abbrev pub reason_of : Option Workload → Option String
reason_of none = none
reason_of (some w) = some (replacement_reason w)

-- What a placement ends with: a stop, or the requirements and candidates for the next replica.
pub data Placed (J : Type 0) : Type 0 where
  halted : Db J → Placed J
  placed : WorkloadRequirements → List NodeSnapshot → Db J → Placed J

module _ (env : Env) where
  open env use {Json, uuid, parse_ports}

  -- What is fixed for the placements of one reconciliation.
  pub record Job : Type 0 where
    pub now : ℕ
    pub deployment : Deployment Json
    pub current : List Workload
    pub persistent : Bool

  -- `UPDATE deployments SET … WHERE id`, for this deployment.
  abbrev pub update_deployment : String → (Deployment Json → Deployment Json) → Db Json → Db Json
  update_deployment id write db = record db {
    deployments = update_where (λ d. d.id === id) write db.deployments;
  }

  abbrev pub add_event : DeploymentEvent → Db Json → Db Json
  add_event e db = record db { events = db.events ++ e ∷ [] }

  abbrev pub event_of :
      Job → EventType → Option String → Option String → Option String → DeploymentEvent
  event_of job type workload_id node_id reason = record {
    deployment_id = job.deployment.id;
    type = type;
    workload_id = workload_id;
    node_id = node_id;
    reason = reason;
  }

  -- The transaction for a recovery that has used up its attempts.
  unfoldable pub give_up : Job → Option Workload → Db Json → Db Json
  give_up job replacement db =
      add_event
        (event_of job deployment_manual_intervention_required (id_of replacement) none
          (some "RECOVERY_ATTEMPTS_EXHAUSTED"))
        (update_deployment job.deployment.id
          (λ d. record d {
            recovery_state = RecoveryState.manual_intervention;
            status = DeploymentStatus.failed;
            failure_reason = some exhausted;
          })
          db)

  -- The transaction for a host port that was taken meanwhile.
  unfoldable pub port_lost : Job → String → Db Json → Db Json
  port_lost job node_id db =
      add_event
        (event_of job workload_port_reservation_failed none (some node_id)
          (some "PORT_UNAVAILABLE"))
        (fail_deployment job.deployment.id "Requested public host port is no longer available" db)

  abbrev pub new_workload : Job → String → String → List Reason → Option Workload → Workload
  new_workload job id node_id reasons replacement = record {
    id = id;
    deployment_id = job.deployment.id;
    node_id = some node_id;
    scheduling_reasons = reasons;
    desired_state = DesiredState.running;
    actual_state = ActualState.pending;
    health_status = HealthStatus.none;
    health_message = none;
    health_failure_count = 0;
    lost_at = none;
    replacement_of_workload_id = id_of replacement;
    replacement_reason = reason_of replacement;
    last_reported_at = none;
    runtime_id = none;
    published_ports = [];
    health_checked_at = none;
    last_healthy_at = none;
    health_changed_at = none;
    report_generation = 1;
  }

  abbrev pub start_command :
      Job → String → String → String → WorkloadRequirements → List AssignedPort → AgentCommand Json
  start_command job id workload_id node_id requirements assigned = record {
    id = id;
    node_id = node_id;
    type = workload_start;
    resource_id = workload_id;
    payload =
        Payload.start workload_id job.deployment.id job.deployment.image job.deployment.runtime
          requirements job.deployment.runtime_config
          (rewrite_ports assigned (parse_ports job.deployment.runtime_config));
    deadline_at = some (job.now + command_deadline_ms);
    status = CommandStatus.pending;
    delivered_at = none;
    delivery_attempts = 0;
    created_at = job.now;
    completed_at = none;
  }

  abbrev pub reservations_for : ℕ → String → String → List AssignedPort → List PortReservation
  reservations_for fresh node_id workload_id [] = []
  reservations_for fresh node_id workload_id (a ∷ as') =
      reservation (uuid fresh) node_id workload_id a
      ∷ reservations_for (suc fresh) node_id workload_id as'

  abbrev pub write_recovery : Job → Option Workload → ℕ → Db Json → Db Json
  write_recovery job none attempt db = db
  write_recovery job (some _) attempt db =
      update_deployment job.deployment.id
        (λ d. record d {
          recovery_attempts = attempt;
          recovery_state = RecoveryState.backoff;
          recovery_next_attempt_at = some (job.now + backoff_ms attempt);
        })
        db

  abbrev pub add_replacement_event : Job → String → String → Option Workload → Db Json → Db Json
  add_replacement_event job workload_id node_id none db = db
  add_replacement_event job workload_id node_id (some w) db =
      add_event
        (event_of job workload_replacement_requested (some workload_id) (some node_id)
          (some (replacement_reason w)))
        db

  -- The rows of the transaction behind the reservations, in which the reservations are given.
  unfoldable pub write_placement :
      Job
      → String
      → String
      → List Reason
      → Option Workload
      → ℕ
      → WorkloadRequirements
      → List AssignedPort
      → List PortReservation
      → Db Json
      → Db Json
  write_placement job workload_id node_id reasons replacement attempt requirements assigned
        reservations db =
      let db1 = write_recovery job replacement attempt db in
      let db2 = record db1 {
        workloads = db1.workloads ++ new_workload job workload_id node_id reasons replacement ∷ [];
        reservations = reservations;
      } in
      let db3 = add_replacement_event job workload_id node_id replacement db2 in
      record db3 {
        commands =
            db3.commands
            ++ start_command job (uuid (suc db.fresh)) workload_id node_id requirements assigned
              ∷ [];
        fresh = suc (suc db.fresh) + length assigned;
      }

  -- `persistentVolumes && !requirements.requiredNodeId`.
  abbrev pub is_unpinned : Bool → Option String → Bool
  is_unpinned persistent none = persistent
  is_unpinned persistent (some id) = persistent && id === ""

  abbrev pub pinned : Job → String → WorkloadRequirements → WorkloadRequirements
  pinned job node_id r =
      if is_unpinned job.persistent r.required_node_id then require_node node_id r else r

  abbrev pub write_pin : Job → String → WorkloadRequirements → Db Json → Db Json
  write_pin job node_id r db =
      if is_unpinned job.persistent r.required_node_id
      then set_requirements env job.deployment.id (require_node node_id r) db
      else db

  abbrev pub commit :
      Job
      → String
      → List Reason
      → Option Workload
      → WorkloadRequirements
      → List NodeSnapshot
      → List AssignedPort
      → Db Json
      → Option (List PortReservation)
      → Placed Json
  commit job node_id reasons replacement r candidates assigned db none =
      halted (port_lost job node_id db)
  commit job node_id reasons replacement r candidates assigned db (some reservations) =
      placed (pinned job node_id r) (reserve node_id (pinned job node_id r) candidates) (
        write_placement job (uuid db.fresh) node_id reasons replacement
          (attempt_after replacement job.deployment.recovery_attempts) r assigned reservations
          (write_pin job node_id r db))

  -- From the chosen node on.
  unfoldable pub place :
      Job → String → List Reason → WorkloadRequirements → List NodeSnapshot → Db Json → Placed Json
  place job node_id reasons r candidates db =
      let ports = parse_ports job.deployment.runtime_config in
      let workload_id = uuid db.fresh in
      let assigned = assign_host_ports workload_id (active_ports node_id db.reservations) ports in
      let replacement = find needs_replacement job.current in
      if not (length assigned == length (public_ports ports))
      then halted (
          fail_deployment job.deployment.id "No dynamic host port is available on the selected node"
            db)
      else if ltb max_recovery_attempts (attempt_after replacement job.deployment.recovery_attempts)
      then halted (give_up job replacement db)
      else commit job node_id reasons replacement r candidates assigned db (
          insert_reservations db.reservations
            (reservations_for (suc (suc db.fresh)) node_id workload_id assigned))
