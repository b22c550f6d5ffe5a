-- ===== src/Control/Commands.antt =====
-- Commands to agents: `requestStateChange` of apps/api/src/modules/deployments/controller.ts, and the
-- controller that fails overdue commands, apps/api/src/modules/commands/controller.ts.
-- A tick reads one time, `now`; its loop handles the expired commands in the table's order.
pub mod Requests
pub mod Timeouts
use devion.Prelude.{
  ℕ, suc, ◌+◌, String, Bool, true, false, ◌&&◌, ◌||◌, not, Option, none, some, List, [], ◌∷◌, ◌++◌,
  ltb, ◌==◌, ◌===◌, if◌then◌else◌, filter, find, any,
}
use devion.Control.Store.{
  DesiredState, is_running, is_deleted, ActualState, CommandStatus, CommandType, workload_start,
  workload_stop, workload_delete, volume_delete, other_command, ReservationStatus, Payload,
  AgentCommand, Workload, PortReservation, DeploymentEvent, workload_command_timed_out, Db,
  update_where, find_deployment, find_workload,
}
use devion.Control.Env.{Env}
use devion.Control.Refresh.{refresh_deployment_status}

abbrev pub command_deadline_ms : ℕ
command_deadline_ms = 120000

-- What a state change asks for.
pub data Change : Type 0 where
  stop delete : Change

abbrev pub target : Change → DesiredState
target stop = DesiredState.stopped
target delete = DesiredState.deleted

abbrev pub command_type : Change → CommandType
command_type stop = workload_stop
command_type delete = workload_delete

abbrev pub type_code : CommandType → ℕ
type_code workload_start = 0
type_code workload_stop = 1
type_code workload_delete = 2
type_code volume_delete = 3
type_code other_command = 4

abbrev pub same_type : CommandType → CommandType → Bool
same_type s t = type_code s == type_code t

abbrev pub has_target : DesiredState → Change → Bool
has_target DesiredState.stopped stop = true
has_target DesiredState.deleted delete = true
has_target _ _ = false

-- `status IN ('pending', 'delivered')`.
abbrev pub is_open : CommandStatus → Bool
is_open CommandStatus.pending = true
is_open CommandStatus.delivered = true
is_open _ = false

abbrev pub is_open_for : {J : Type 0} → String → CommandType → AgentCommand J → Bool
is_open_for resource type c =
    c.resource_id === resource && same_type c.type type && is_open c.status

-- The commands whose deadline has passed.
abbrev pub past : ℕ → Option ℕ → Bool
past now none = false
past now (some deadline) = ltb deadline now

abbrev pub is_lifecycle : CommandType → Bool
is_lifecycle workload_start = true
is_lifecycle workload_stop = true
is_lifecycle workload_delete = true
is_lifecycle _ = false

abbrev pub is_expired : {J : Type 0} → ℕ → AgentCommand J → Bool
is_expired now c = is_open c.status && past now c.deadline_at && is_lifecycle c.type

abbrev pub fail_command : {J : Type 0} → ℕ → AgentCommand J → AgentCommand J
fail_command now c = record c { status = CommandStatus.failed; completed_at = some now }

abbrev pub is_start : CommandType → Bool
is_start workload_start = true
is_start _ = false

abbrev pub is_reserved : ReservationStatus → Bool
is_reserved ReservationStatus.reserved = true
is_reserved _ = false

module _ (env : Env) where
  open env use {Json, uuid, parse_graceful_shutdown}

  abbrev pub graceful_shutdown : String → Db Json → Option ℕ
  graceful_shutdown id db = elim (find_deployment id db) [
    | none ↦ none
    | some d ↦ parse_graceful_shutdown d.runtime_config
  ]

  abbrev pub change_command : ℕ → Workload → String → Change → Db Json → AgentCommand Json
  change_command now w node_id type db = record {
    id = uuid db.fresh;
    node_id = node_id;
    type = command_type type;
    resource_id = w.id;
    payload = Payload.change w.id (graceful_shutdown w.deployment_id db);
    deadline_at = some (now + command_deadline_ms);
    status = CommandStatus.pending;
    delivered_at = none;
    delivery_attempts = 0;
    created_at = now;
    completed_at = none;
  }

  -- The transaction of `requestStateChange`.
  unfoldable pub issue_change : ℕ → Workload → String → Change → Db Json → Db Json
  issue_change now w node_id type db = record db {
    workloads =
        update_where (λ x. x.id === w.id) (λ x. record x { desired_state = target type })
          db.workloads;
    commands = db.commands ++ change_command now w node_id type db ∷ [];
    fresh = suc db.fresh;
  }

  -- One atomic step: in the source the search for an open command stands before the transaction, and
  -- what other requests commit between the two is left out.
  unfoldable pub request_state_change : ℕ → Workload → Change → Db Json → Db Json
  request_state_change now w type db = elim w.node_id [
    | none ↦ db
    | some node_id ↦
        if has_target w.desired_state type
        then db
        else if any (is_open_for w.id (command_type type)) db.commands
        then db
        else issue_change now w node_id type db
  ]

  -- `Promise.all(workloads.map((workload) => requestStateChange(workload, type)))`.
  unfoldable pub request_all : ℕ → Change → List Workload → Db Json → Db Json
  request_all now type [] db = db
  request_all now type (w ∷ ws) db = request_all now type ws (request_state_change now w type db)

  -- What a timed-out command leaves behind for its workload.
  unfoldable pub time_out_workload : ℕ → AgentCommand Json → Workload → Db Json → Db Json
  time_out_workload now c w db = record db {
    workloads =
        update_where (λ x. x.id === w.id)
          (λ x. record x {
            actual_state = if is_start c.type then ActualState.failed else ActualState.unknown;
            health_message = some "Agent command timed out";
            last_reported_at = some now;
          })
          db.workloads;
    reservations =
        if is_start c.type
        then update_where (λ r. r.workload_id === w.id && is_reserved r.status)
            (λ r. record r { status = ReservationStatus.released; released_at = some now })
            db.reservations
        else db.reservations;
    events =
        db.events
        ++ record {
          deployment_id = w.deployment_id;
          type = workload_command_timed_out;
          workload_id = some w.id;
          node_id = w.node_id;
          reason = some "COMMAND_TIMEOUT";
        }
          ∷ [];
  }

  -- The guarded update of the command's row.
  unfoldable pub fail_open : ℕ → AgentCommand Json → Db Json → Db Json
  fail_open now c db = record db {
    commands = update_where (λ x. x.id === c.id && is_open x.status) (fail_command now) db.commands;
  }

  -- The rest of a round, with the workload that the command is about.
  unfoldable pub settle : ℕ → AgentCommand Json → Option Workload → Db Json → Db Json
  settle now c none db = db
  settle now c (some w) db =
      (refresh_deployment_status now w.deployment_id (time_out_workload now c w db)).1

  -- One round of the loop over the expired commands.
  unfoldable pub time_out : ℕ → AgentCommand Json → Db Json → Db Json
  time_out now c db =
      let db' = fail_open now c db in
      if any (λ x. x.id === c.id && is_open x.status) db.commands
      then settle now c (find_workload c.resource_id db') db'
      else db'

  unfoldable pub time_out_all : ℕ → List (AgentCommand Json) → Db Json → Db Json
  time_out_all now [] db = db
  time_out_all now (c ∷ cs) db = time_out_all now cs (time_out now c db)

  unfoldable pub command_timeout_tick : ℕ → Db Json → Db Json
  command_timeout_tick now db = time_out_all now (filter (is_expired now) db.commands) db
