-- ===== src/Control/Agents/Reports.antt =====
-- The results of commands, of apps/api/src/routes/nodes.routes.ts.
use devion.Prelude.{
  ℕ, String, Bool, true, false, ◌&&◌, not, Option, none, some, List, [], ◌∷◌, ◌++◌, ◌===◌,
  if◌then◌else◌, find, is_some, or_else,
}
use devion.Control.Store.{
  ActualState, CommandStatus, CommandType, workload_start, workload_stop, workload_delete,
  ReservationStatus, GameServerStatus, AgentCommand, Workload, DeploymentEvent, EventType,
  workload_started, workload_start_failed, workload_stopped, workload_stop_failed, Db, update_where,
  find_deployment, find_workload,
}
use devion.Control.Env.{Env}
use devion.Control.Refresh.{refresh_deployment_status}
use devion.Control.Agents.{refers_to}
use devion.Control.Agents.Observed.{replace_observed_workload_ports}

abbrev pub is_delivered : CommandStatus → Bool
is_delivered CommandStatus.delivered = true
is_delivered _ = false

-- A runtime's answer to a start, where its schema accepts it.
pub record RuntimeData : Type 0 where
  pub runtime_id : String
  pub ports : Option (List (String × ℕ))

-- A result: whether it succeeded, the data that the runtime's schema accepts, and the error's code.
pub record CommandResult : Type 0 where
  pub command_id : String
  pub is_success : Bool
  pub runtime : Option RuntimeData
  pub error_code : Option String

-- `404` or `204`.
pub data Response : Type 0 where
  unknown_command no_content : Response

-- `ports?.["25565/tcp"]`.
abbrev pub game_port : List (String × ℕ) → Option ℕ
game_port [] = none
game_port ((key, port) ∷ ports) = if key === "25565/tcp" then some port else game_port ports

abbrev pub data_ports : Option RuntimeData → Option (List (String × ℕ))
data_ports none = none
data_ports (some d) = d.ports

module _ (env : Env) where
  open env use {Json}

  abbrev pub is_awaited : String → String → AgentCommand Json → Bool
  is_awaited node_id id c = c.id === id && c.node_id === node_id && is_delivered c.status

  abbrev pub result_status : Bool → CommandStatus
  result_status true = CommandStatus.succeeded
  result_status false = CommandStatus.failed

  abbrev pub close_command : ℕ → Bool → AgentCommand Json → AgentCommand Json
  close_command now success c = record c { status = result_status success; completed_at = some now }

  abbrev pub result_event : String → EventType → Option String → Workload → DeploymentEvent
  result_event node_id type reason w = record {
    deployment_id = w.deployment_id;
    type = type;
    workload_id = some w.id;
    node_id = some node_id;
    reason = reason;
  }

  -- The workload's row behind the result of a start.
  abbrev pub report_start : ℕ → Bool → Option RuntimeData → Workload → Workload
  report_start now success runtime w = record w {
    actual_state = if success then ActualState.running else ActualState.failed;
    runtime_id = elim runtime [
      | none ↦ w.runtime_id
      | some d ↦ if success then some d.runtime_id else w.runtime_id
    ];
    published_ports =
        if success then or_else (data_ports runtime) w.published_ports else w.published_ports;
    last_reported_at = some now;
  }

  abbrev pub report_stop : ℕ → Bool → Workload → Workload
  report_stop now success w = record w {
    actual_state = if success then ActualState.stopped else ActualState.failed;
    last_reported_at = some now;
  }

  -- The game servers of the deployment's application follow a start.
  abbrev pub report_game_servers : Bool → Option RuntimeData → String → Db Json → Db Json
  report_game_servers success runtime deployment_id db = elim (find_deployment deployment_id db) [
    | none ↦ db
    | some d ↦ record db {
      game_servers =
          update_where (λ g. refers_to d.application_id g.application_id)
            (λ g.
              if success
              then record g {
                status = GameServerStatus.running;
                runtime_port = elim (game_port (or_else (data_ports runtime) [])) [
                  | none ↦ g.runtime_port
                  | some p ↦ some p
                ];
              }
              else record g { status = GameServerStatus.failed })
            db.game_servers;
    }
  ]

  abbrev pub bind_reservations : ℕ → Bool → String → Db Json → Db Json
  bind_reservations now success workload_id db = record db {
    reservations =
        update_where (λ r. r.workload_id === workload_id)
          (λ r.
            if success
            then record r { status = ReservationStatus.bound; released_at = none }
            else record r { status = ReservationStatus.released; released_at = some now })
          db.reservations;
  }

  abbrev pub start_failure_reason : CommandResult → Option String
  start_failure_reason result =
      if is_some result.runtime
      then some (or_else result.error_code "AGENT_START_FAILED")
      else some "INVALID_RUNTIME_RESULT"

  abbrev pub write_workload : String → String → (Workload → Workload) → Db Json → Db Json
  write_workload node_id id write db = record db {
    workloads = update_where (λ w. w.id === id && refers_to node_id w.node_id) write db.workloads;
  }

  -- A start that succeeded without the runtime's data counts as failed.
  unfoldable pub reject_invalid : Bool → CommandResult → Db Json → Db Json
  reject_invalid success result db = record db {
    commands =
        if not success && result.is_success
        then update_where (λ c. c.id === result.command_id)
            (λ c. record c { status = CommandStatus.failed }) db.commands
        else db.commands;
  }

  unfoldable pub log_start : ℕ → String → String → Bool → CommandResult → Db Json → Db Json
  log_start now node_id resource_id success result db = elim (find_workload resource_id db) [
    | none ↦ db
    | some w ↦
        (refresh_deployment_status now w.deployment_id (
          report_game_servers success result.runtime w.deployment_id (record db {
            events =
                db.events
                ++ result_event node_id
                    (if success then workload_started else workload_start_failed)
                    (if success then none else start_failure_reason result) w
                  ∷ [];
          }))).1
  ]

  unfoldable pub observe_start : ℕ → String → String → Bool → CommandResult → Db Json → Db Json
  observe_start now node_id resource_id success result db = elim (data_ports result.runtime) [
    | none ↦ db
    | some ports ↦
        if success then replace_observed_workload_ports env now node_id resource_id ports db else db
  ]

  -- What the result of a start leaves.
  unfoldable pub finish_start : ℕ → String → String → CommandResult → Db Json → Db Json
  finish_start now node_id resource_id result db =
      let success = result.is_success && is_some result.runtime in
      let db1 = reject_invalid success result db in
      let db2 = write_workload node_id resource_id (report_start now success result.runtime) db1 in
      let db3 = log_start now node_id resource_id success result db2 in
      let db4 = observe_start now node_id resource_id success result db3 in
      bind_reservations now success resource_id db4

  unfoldable pub log_stop : ℕ → String → String → CommandResult → Db Json → Db Json
  log_stop now node_id resource_id result db = elim (find_workload resource_id db) [
    | none ↦ db
    | some w ↦
        (refresh_deployment_status now w.deployment_id (record db {
          events =
              db.events
              ++ result_event node_id
                  (if result.is_success then workload_stopped else workload_stop_failed) none w
                ∷ [];
        })).1
  ]

  -- What the result of a stop or a deletion leaves.
  unfoldable pub finish_stop : ℕ → String → String → CommandResult → Db Json → Db Json
  finish_stop now node_id resource_id result db =
      let db2 = write_workload node_id resource_id (report_stop now result.is_success) db in
      let db3 = log_stop now node_id resource_id result db2 in
      if result.is_success then bind_reservations now false resource_id db3 else db3

  abbrev pub finish_command : CommandType → ℕ → String → String → CommandResult → Db Json → Db Json
  finish_command workload_start now node_id resource_id result db =
      finish_start now node_id resource_id result db
  finish_command workload_stop now node_id resource_id result db =
      finish_stop now node_id resource_id result db
  finish_command workload_delete now node_id resource_id result db =
      finish_stop now node_id resource_id result db
  finish_command _ now node_id resource_id result db = db

  unfoldable pub command_result : ℕ → String → CommandResult → Db Json → Response × Db Json
  command_result now node_id result db =
      elim (find (is_awaited node_id result.command_id) db.commands) [
        | none ↦ (unknown_command, db)
        | some c ↦ (
          no_content,
          finish_command c.type now node_id c.resource_id result (record db {
            commands =
                update_where (is_awaited node_id result.command_id)
                  (close_command now result.is_success) db.commands;
          }),
        )
      ]
