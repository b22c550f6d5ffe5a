-- ===== src/Control/Deployments/Candidates.antt =====
-- The nodes that the scheduler may choose from: `loadCandidates`, `withScheduledReservations` and
-- `reserve`. The map from nodes to reservations is the sum over the workloads of a node, and a node
-- with none has the sum 0, which changes no maximum.
use devion.Prelude.{
  ℕ, ◌+◌, String, Bool, true, false, ◌&&◌, not, Option, none, some, List, [], ◌∷◌, max, ◌==◌, ◌===◌,
  if◌then◌else◌,
}
use devion.Core.Contracts.{
  ResourceQuantity, NodeResources, HostPort, NodeSnapshot, WorkloadRequirements,
}
use devion.Control.Store.{ReservationStatus, Node, Workload, PortReservation, Db, find_deployment}
use devion.Control.Env.{Env}
use devion.Control.Lifecycle.{actual_stopped}

pub record Amounts : Type 0 where
  pub cpu_milli : ℕ
  pub memory_mib : ℕ
  pub storage_mib : ℕ

abbrev pub add_requirements : WorkloadRequirements → Amounts → Amounts
add_requirements r a = record {
  cpu_milli = a.cpu_milli + r.cpu_milli;
  memory_mib = a.memory_mib + r.memory_mib;
  storage_mib = a.storage_mib + r.storage_mib;
}

abbrev pub is_active : ReservationStatus → Bool
is_active ReservationStatus.released = false
is_active _ = true

abbrev pub on_node : String → Option String → Bool
on_node id none = false
on_node id (some n) = n === id

abbrev pub raise_reserved : ResourceQuantity → ℕ → ResourceQuantity
raise_reserved q n = record q { reserved = max q.reserved n }

unfoldable pub with_scheduled_reservations : NodeResources → Amounts → NodeResources
with_scheduled_reservations r a = record {
  cpu_milli = raise_reserved r.cpu_milli a.cpu_milli;
  memory_mib = raise_reserved r.memory_mib a.memory_mib;
  storage_mib = raise_reserved r.storage_mib a.storage_mib;
}

abbrev pub port_of : PortReservation → HostPort
port_of r = record { host_port = r.host_port; protocol = r.protocol }

-- The active reservations of a node.
abbrev pub active_ports : String → List PortReservation → List HostPort
active_ports node_id [] = []
active_ports node_id (r ∷ rs) =
    if r.node_id === node_id && is_active r.status
    then port_of r ∷ active_ports node_id rs
    else active_ports node_id rs

abbrev pub add_reserved : ResourceQuantity → ℕ → ResourceQuantity
add_reserved q n = record q { reserved = q.reserved + n }

-- The first candidate with the identifier takes up what the workload requires.
unfoldable pub reserve : String → WorkloadRequirements → List NodeSnapshot → List NodeSnapshot
reserve node_id req [] = []
reserve node_id req (c ∷ cs) =
    if c.id === node_id
    then record c {
      resources = record {
        cpu_milli = add_reserved c.resources.cpu_milli req.cpu_milli;
        memory_mib = add_reserved c.resources.memory_mib req.memory_mib;
        storage_mib = add_reserved c.resources.storage_mib req.storage_mib;
      };
    }
      ∷ cs
    else c ∷ reserve node_id req cs

module _ (env : Env) where
  open env use {Json, parse_requirements}

  -- The parsed requirements of a workload's deployment, if there are any.
  abbrev pub requirements_of : Workload → Db Json → Option WorkloadRequirements
  requirements_of w db = elim (find_deployment w.deployment_id db) [
    | none ↦ none
    | some d ↦ parse_requirements d.requirements
  ]

  abbrev pub charge : Option WorkloadRequirements → Amounts → Amounts
  charge none a = a
  charge (some r) a = add_requirements r a

  -- The sum of what the workloads of a node require that have not stopped.
  unfoldable pub scheduled : String → Db Json → List Workload → Amounts
  scheduled node_id db [] = record { cpu_milli = 0; memory_mib = 0; storage_mib = 0 }
  scheduled node_id db (w ∷ ws) =
      if on_node node_id w.node_id && not (actual_stopped w.actual_state)
      then charge (requirements_of w db) (scheduled node_id db ws)
      else scheduled node_id db ws

  abbrev pub snapshot : Db Json → Node → NodeResources → NodeSnapshot
  snapshot db node resources = record {
    id = node.id;
    status = node.status;
    scheduling_enabled = node.scheduling_enabled == 1;
    architecture = node.architecture;
    region = node.region;
    labels = node.labels;
    runtimes = node.runtimes;
    resources = with_scheduled_reservations resources (scheduled node.id db db.workloads);
    reserved_host_ports = some (active_ports node.id db.reservations);
  }

  abbrev pub snapshots : Db Json → List Node → List NodeSnapshot
  snapshots db [] = []
  snapshots db (node ∷ nodes) = elim node.resources [
    | none ↦ snapshots db nodes
    | some resources ↦ snapshot db node resources ∷ snapshots db nodes
  ]

  unfoldable pub load_candidates : Db Json → List NodeSnapshot
  load_candidates db = snapshots db db.nodes
