-- ===== src/Control/Agents.antt =====
-- What agents ask of the control plane: the heartbeat and the delivery of commands, of
-- apps/api/src/routes/nodes.routes.ts. The node is the one that the bearer's token names, and the body
-- has passed its schema. A handler reads one time, `now`.
pub mod Observed
pub mod Telemetry
pub mod Reports
pub mod Results
pub mod Delivery
use devion.Prelude.{
  same_codes, ℕ, suc, ◌+◌, ◌-◌, ◌*◌, String, Bool, true, false, ◌&&◌, ◌||◌, not, Option, none, some,
  List, [], ◌∷◌, ◌++◌, ltb, leb, ◌==◌, ◌===◌, if◌then◌else◌, filter, find, any, all, flat_map,
  is_nil, is_some, or_else, map, codes, split,
}
use devion.Core.Ports.{PortProtocol, tcp, udp}
use devion.Core.Contracts.{NodeStatus, ready, unhealthy, NodeResources}
use devion.Core.Scheduler.{same_protocol}
use devion.Control.Store.{
  ActualState, CommandStatus, CommandType, workload_start, workload_stop, workload_delete,
  volume_delete, other_command, ReservationStatus, VolumeStatus, GameServerStatus, AgentCommand,
  Workload, WorkloadPort, ConfiguredPort, Exposure, private, public, Deployment, DeploymentEvent,
  EventType, workload_started, workload_start_failed, workload_stopped, workload_stop_failed, Db,
  update_where, find_deployment, find_workload,
}
use devion.Control.Env.{Env}
use devion.Control.Refresh.{refresh_deployment_status}

-- `eq(column, id)` on a column that may be NULL.
abbrev pub refers_to : String → Option String → Bool
refers_to id none = false
refers_to id (some reference) = reference === id

abbrev pub is_ready_status : NodeStatus → Bool
is_ready_status ready = true
is_ready_status _ = false

abbrev pub is_unhealthy_status : NodeStatus → Bool
is_unhealthy_status unhealthy = true
is_unhealthy_status _ = false

abbrev pub is_unavailable : VolumeStatus → Bool
is_unavailable VolumeStatus.unavailable = true
is_unavailable _ = false

-- Five minutes.
abbrev pub delivery_lease_ms : ℕ
delivery_lease_ms = 300000

-- `isNull(deliveredAt) || deliveredAt < now - lease`.
abbrev pub lease_over : ℕ → Option ℕ → Bool
lease_over now none = true
lease_over now (some at) = ltb (at + delivery_lease_ms) now

abbrev pub may_deliver : ℕ → CommandStatus → Option ℕ → Bool
may_deliver now CommandStatus.pending at = true
may_deliver now CommandStatus.delivered at = lease_over now at
may_deliver now _ at = false

module _ (env : Env) where
  open env use {Json}

  unfoldable pub heartbeat : ℕ → String → NodeStatus → NodeResources → Db Json → Db Json
  heartbeat now node_id status resources db =
      let db1 : Db Json = record db {
        nodes =
            update_where (λ n. n.id === node_id)
              (λ n. record n {
                status = status;
                resources = some resources;
                last_heartbeat_at = some now;
                unhealthy_at =
                    if is_ready_status status
                    then none
                    else if is_unhealthy_status status
                    then some now
                    else n.unhealthy_at;
                offline_at =
                    if is_ready_status status || is_unhealthy_status status
                    then none
                    else n.offline_at;
              })
              db.nodes;
      } in
      if is_ready_status status
      then record db1 {
        volumes =
            update_where (λ v. refers_to node_id v.node_id && is_unavailable v.status)
              (λ v. record v { status = VolumeStatus.in_use }) db.volumes;
      }
      else db1

  -- The commands that a poll of the node finds.
  abbrev pub is_candidate : ℕ → String → AgentCommand Json → Bool
  is_candidate now node_id c = c.node_id === node_id && may_deliver now c.status c.delivered_at

  abbrev pub deliver : ℕ → AgentCommand Json → AgentCommand Json
  deliver now c = record c {
    status = CommandStatus.delivered;
    delivered_at = some now;
    delivery_attempts = c.delivery_attempts + 1;
  }

  -- One candidate after the other is delivered, if it still may be.
  abbrev pub deliver_each :
      ℕ
      → String
      → List (AgentCommand Json)
      → List (AgentCommand Json)
      → List (AgentCommand Json) × List (AgentCommand Json)
  deliver_each now node_id [] commands = ([], commands)
  deliver_each now node_id (c ∷ candidates) commands =
      let test : AgentCommand Json → Bool = λ d. d.id === c.id && is_candidate now node_id d in
      let (rest, after) =
        deliver_each now node_id candidates (update_where test (deliver now) commands) in
      (map (deliver now) (filter test commands) ++ rest, after)

  unfoldable pub poll_commands : ℕ → String → Db Json → List (AgentCommand Json) × Db Json
  poll_commands now node_id db =
      let (delivered, commands) =
        deliver_each now node_id (filter (is_candidate now node_id) db.commands) db.commands in
      (delivered, record db { commands = commands })
