-- ===== src/Control/Liveness.antt =====
-- Nodes that fall silent: apps/api/src/modules/nodes/liveness-controller.ts.
-- A node is silent for longer than `after` if its last heartbeat plus `after` lies before now.
-- The withdrawal of a node's routes, which writes none of these tables and whose errors are
-- caught, is left out.
pub mod Silence
use devion.Prelude.{
  ℕ, suc, ◌+◌, String, Bool, true, false, ◌&&◌, Option, none, some, List, [], ◌∷◌, ◌++◌, ltb, ◌==◌,
  ◌===◌, if◌then◌else◌, filter, any, not,
}
use devion.Core.Contracts.{NodeStatus, ready, draining, offline, unhealthy}
use devion.Control.Store.{
  DesiredState, is_running, ActualState, HealthStatus, VolumeStatus, CommandStatus, workload_stop,
  Payload, AgentCommand, Workload, Node, Volume, DeploymentEvent, workload_lost, Db, update_where,
  find_deployment,
}
use devion.Control.Env.{Env}
use devion.Control.Refresh.{refresh_deployment_status}
use devion.Control.Commands.{command_deadline_ms}
use devion.Control.Deployments.Candidates.{on_node}
use devion.Control.Deployments.Claims.{has_text, is_usable}

abbrev pub node_unhealthy_after_ms : ℕ
node_unhealthy_after_ms = 45000

abbrev pub node_offline_after_ms : ℕ
node_offline_after_ms = 90000

abbrev pub is_serving : NodeStatus → Bool
is_serving ready = true
is_serving draining = true
is_serving _ = false

abbrev pub is_unhealthy_node : NodeStatus → Bool
is_unhealthy_node unhealthy = true
is_unhealthy_node _ = false

-- `isNotNull(lastHeartbeatAt) AND lastHeartbeatAt < now - after`.
abbrev pub silent : ℕ → ℕ → Option ℕ → Bool
silent now after none = false
silent now after (some heartbeat) = ltb (heartbeat + after) now

abbrev pub turns_unhealthy : ℕ → ℕ → Node → Bool
turns_unhealthy now after n = is_serving n.status && silent now after n.last_heartbeat_at

abbrev pub turns_offline : ℕ → ℕ → Node → Bool
turns_offline now after n = is_unhealthy_node n.status && silent now after n.last_heartbeat_at

abbrev pub mark_unhealthy : ℕ → Node → Node
mark_unhealthy now n = record n { status = unhealthy; unhealthy_at = some now }

abbrev pub mark_offline : ℕ → Node → Node
mark_offline now n = record n { status = offline; offline_at = some now }

abbrev pub node_keys : List Node → List String
node_keys [] = []
node_keys (n ∷ ns) = n.id ∷ node_keys ns

-- `[...affectedDeployments]`, a set of the workloads' deployments; the order of the refreshes is
-- that of the last occurrences.
unfoldable pub affected : List Workload → List String
affected [] = []
affected (w ∷ ws) =
    let rest = affected ws in if has_text rest w.deployment_id then rest else w.deployment_id ∷ rest

module _ (env : Env) where
  open env use {Json, uuid, volume_count}

  abbrev pub has_persistent_volumes : String → Db Json → Bool
  has_persistent_volumes deployment_id db = elim (find_deployment deployment_id db) [
    | none ↦ false
    | some d ↦ not (volume_count d.runtime_config == 0)
  ]

  abbrev pub mark_lost : ℕ → Bool → Workload → Workload
  mark_lost now persistent w = record w {
    actual_state = ActualState.lost;
    health_status = HealthStatus.unknown;
    health_message = some "Node heartbeat timed out";
    lost_at = some now;
    last_reported_at = some now;
    desired_state = if persistent then w.desired_state else DesiredState.stopped;
  }

  abbrev pub retire_command : ℕ → String → Workload → Db Json → AgentCommand Json
  retire_command now node_id w db = record {
    id = uuid db.fresh;
    node_id = node_id;
    type = workload_stop;
    resource_id = w.id;
    payload = Payload.retire w.id "NODE_OFFLINE_REPLACEMENT";
    deadline_at = some (now + command_deadline_ms);
    status = CommandStatus.pending;
    delivered_at = none;
    delivery_attempts = 0;
    created_at = now;
    completed_at = none;
  }

  abbrev pub lost_event : String → Workload → DeploymentEvent
  lost_event node_id w = record {
    deployment_id = w.deployment_id;
    type = workload_lost;
    workload_id = some w.id;
    node_id = some node_id;
    reason = some "NODE_OFFLINE";
  }

  -- One round over the workloads of an offline node.
  unfoldable pub lose_workload : ℕ → String → Workload → Db Json → Db Json
  lose_workload now node_id w db =
      let persistent = has_persistent_volumes w.deployment_id db in
      record db {
        workloads =
            update_where (λ x. x.id === w.id && on_node node_id x.node_id)
              (mark_lost now persistent) db.workloads;
        commands =
            if persistent then db.commands else db.commands ++ retire_command now node_id w db ∷ [];
        fresh = if persistent then db.fresh else suc db.fresh;
        events = db.events ++ lost_event node_id w ∷ [];
      }

  unfoldable pub lose_workloads : ℕ → String → List Workload → Db Json → Db Json
  lose_workloads now node_id [] db = db
  lose_workloads now node_id (w ∷ ws) db =
      lose_workloads now node_id ws (lose_workload now node_id w db)

  unfoldable pub refresh_each : ℕ → List String → Db Json → Db Json
  refresh_each now [] db = db
  refresh_each now (id ∷ ids) db = refresh_each now ids (refresh_deployment_status now id db).1

  abbrev pub withdraw_volumes : String → Db Json → Db Json
  withdraw_volumes node_id db = record db {
    volumes =
        update_where (λ v. on_node node_id v.node_id && is_usable v.status)
          (λ v. record v { status = VolumeStatus.unavailable }) db.volumes;
  }

  abbrev pub assigned_to : String → Db Json → List Workload
  assigned_to node_id db =
      filter (λ w. on_node node_id w.node_id && is_running w.desired_state) db.workloads

  -- The loop's body for a node that went offline.
  unfoldable pub lose_node : ℕ → String → Db Json → Db Json
  lose_node now node_id db =
      let assigned = assigned_to node_id db in
      refresh_each now (affected assigned)
        (lose_workloads now node_id assigned (withdraw_volumes node_id db))

  unfoldable pub lose_nodes : ℕ → List String → Db Json → Db Json
  lose_nodes now [] db = db
  lose_nodes now (id ∷ ids) db = lose_nodes now ids (lose_node now id db)

  abbrev pub silent_nodes : ℕ → ℕ → List Node → List Node
  silent_nodes now unhealthy_after nodes =
      update_where (turns_unhealthy now unhealthy_after) (mark_unhealthy now) nodes

  -- The nodes that the second update returns.
  abbrev pub stale : ℕ → ℕ → ℕ → Db Json → List String
  stale now unhealthy_after offline_after db =
      node_keys
        (filter (turns_offline now offline_after) (silent_nodes now unhealthy_after db.nodes))

  unfoldable pub liveness_tick : ℕ → ℕ → ℕ → Db Json → Db Json
  liveness_tick now unhealthy_after offline_after db =
      lose_nodes now (stale now unhealthy_after offline_after db) (record db {
        nodes =
            update_where (turns_offline now offline_after) (mark_offline now)
              (silent_nodes now unhealthy_after db.nodes);
      })
