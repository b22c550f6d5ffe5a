-- ===== src/Core/Scheduler.antt =====
-- The stateless scheduler: packages/core/src/control-plane/scheduler.ts.
-- A reason is a constructor with what the source writes into its text. The score of a node is a
-- floating-point number, and ties go by `localeCompare`: both are the parameter `Platform`.
-- The quantities are whole numbers here, so `allocatable - reserved < required` is written with a sum;
-- the fractions that the schema of heartbeats allows too, and their rounding, are left out.
pub mod Eligible
pub mod Choice
use Prim.Native.Nat.{Ordering}
use devion.Prelude.{
  ℕ, ◌+◌, ◌-◌, String, Bool, true, false, ◌&&◌, not, Option, none, some, List, [], ◌∷◌, ◌++◌, ltb,
  ◌==◌, ◌===◌, if◌then◌else◌, or_else, flat_map, any, is_nil, concat, map,
}
use devion.Core.Ports.{PortProtocol, tcp, udp}
use devion.Core.Contracts.{
  NodeStatus, ready, RuntimeKind, container, microvm, ResourceQuantity, HostPort, NodeSnapshot,
  WorkloadRequirements,
}

pub data Reason : Type 0 where
  node_status : NodeStatus → Reason
  runtime_unavailable : RuntimeKind → Reason
  host_port_unavailable : HostPort → Reason
  label_mismatch : String → Reason
  scheduling_disabled architecture_mismatch region_mismatch node_affinity_mismatch : Reason
  insufficient_cpu insufficient_memory insufficient_storage : Reason
  eligible balanced_load no_eligible_node : Reason

pub record SchedulingDecision : Type 0 where
  pub node_id : Option String
  pub reasons : List Reason

abbrev pub is_ready : NodeStatus → Bool
is_ready ready = true
is_ready _ = false

abbrev pub same_runtime : RuntimeKind → RuntimeKind → Bool
same_runtime container container = true
same_runtime microvm microvm = true
same_runtime _ _ = false

abbrev pub same_protocol : PortProtocol → PortProtocol → Bool
same_protocol tcp tcp = true
same_protocol udp udp = true
same_protocol _ _ = false

abbrev pub same_port : HostPort → HostPort → Bool
same_port p q = p.host_port == q.host_port && same_protocol p.protocol q.protocol

-- `wanted && actual !== wanted`; the empty string is falsy.
abbrev pub mismatch : Option String → Option String → Bool
mismatch none actual = false
mismatch (some w) none = not (w === "")
mismatch (some w) (some a) = not (w === "") && not (a === w)

unfoldable pub label : String → List (String × String) → Option String
label key [] = none
label key ((k, v) ∷ labels) = if k === key then some v else label key labels

-- `node.labels[key] !== value`.
abbrev pub label_differs : Option String → String → Bool
label_differs none value = true
label_differs (some v) value = not (v === value)

-- `if (b) reasons.push(r)`.
abbrev pub when : Bool → Reason → List Reason
when true r = r ∷ []
when false r = []

unfoldable pub port_reasons : List HostPort → List HostPort → List Reason
port_reasons taken [] = []
port_reasons taken (p ∷ ports) =
    when (any (same_port p) taken) (host_port_unavailable p) ++ port_reasons taken ports

unfoldable pub label_reasons : List (String × String) → List (String × String) → List Reason
label_reasons labels [] = []
label_reasons labels ((key, value) ∷ wanted) =
    when (label_differs (label key labels) value) (label_mismatch key)
    ++ label_reasons labels wanted

abbrev pub lacks : ResourceQuantity → ℕ → Bool
lacks q required = ltb q.allocatable (required + q.reserved)

-- The reasons that each constraint gives against a node, in the order of the source.
abbrev pub constraints : NodeSnapshot → WorkloadRequirements → List (List Reason)
constraints node req =
    when (not (is_ready node.status)) (node_status node.status)
    ∷ when (not node.scheduling_enabled) scheduling_disabled
    ∷ when (not (any (same_runtime req.runtime) node.runtimes)) (runtime_unavailable req.runtime)
    ∷ when (mismatch req.architecture (some node.architecture)) architecture_mismatch
    ∷ when (mismatch req.region node.region) region_mismatch
    ∷ when (mismatch req.required_node_id (some node.id)) node_affinity_mismatch
    ∷ port_reasons (or_else node.reserved_host_ports []) (or_else req.requested_host_ports [])
    ∷ label_reasons node.labels (or_else req.required_labels [])
    ∷ when (lacks node.resources.cpu_milli req.cpu_milli) insufficient_cpu
    ∷ when (lacks node.resources.memory_mib req.memory_mib) insufficient_memory
    ∷ when (lacks node.resources.storage_mib req.storage_mib) insufficient_storage
    ∷ []

unfoldable pub reasons_against : NodeSnapshot → WorkloadRequirements → List Reason
reasons_against node req = concat (constraints node req)

-- What the source takes from the JavaScript runtime: arithmetic and order of floating-point
-- numbers, and `String.prototype.localeCompare`.
pub record Platform : Type 1 where
  pub Float : Type 0
  pub of_nat : ℕ → Float
  pub add : Float → Float → Float
  pub div : Float → Float → Float
  pub lt : Float → Float → Bool
  pub locale_compare : String → String → Ordering

pub record Candidate (F : Type 0) : Type 0 where
  pub node : NodeSnapshot
  pub score : F

module _ (platform : Platform) where
  open platform use {Float, of_nat, add, div, lt, locale_compare}

  -- The share of a resource that is free. A candidate has no more reserved than allocatable.
  unfoldable pub available : ResourceQuantity → Float
  available q =
      if q.allocatable == 0
      then of_nat 0
      else div (of_nat (q.allocatable - q.reserved)) (of_nat q.allocatable)

  unfoldable pub score_node : NodeSnapshot → Float
  score_node node =
      let r = node.resources in
      div
        (add (add (add (of_nat 0) (available r.cpu_milli)) (available r.memory_mib))
          (available r.storage_mib))
        (of_nat 3)

  unfoldable pub candidates_of : List NodeSnapshot → WorkloadRequirements → List (Candidate Float)
  candidates_of [] req = []
  candidates_of (node ∷ nodes) req =
      let rest = candidates_of nodes req in
      if is_nil (reasons_against node req)
      then record { node = node; score = score_node node } ∷ rest
      else rest

  -- `right.score - left.score || left.node.id.localeCompare(right.node.id)`.
  unfoldable pub compare_candidates : Candidate Float → Candidate Float → Ordering
  compare_candidates left right =
      if lt right.score left.score
      then Ordering.lt
      else if lt left.score right.score
      then Ordering.gt
      else locale_compare left.node.id right.node.id

  abbrev pub first : Candidate Float → Candidate Float → Bool
  first left right = elim (compare_candidates left right) [ Ordering.gt ↦ false | _ ↦ true ]

  -- `Array.prototype.sort`, which is stable.
  unfoldable pub insert : Candidate Float → List (Candidate Float) → List (Candidate Float)
  insert c [] = c ∷ []
  insert c (d ∷ ds) = if first c d then c ∷ d ∷ ds else d ∷ insert c ds

  unfoldable pub sort : List (Candidate Float) → List (Candidate Float)
  sort [] = []
  sort (c ∷ cs) = insert c (sort cs)

  abbrev pub decide_by : List (Candidate Float) → SchedulingDecision
  decide_by [] = record { node_id = none; reasons = no_eligible_node ∷ [] }
  decide_by (selected ∷ _) = record {
    node_id = some selected.node.id;
    reasons = eligible ∷ balanced_load ∷ [];
  }

  unfoldable pub schedule_workload : List NodeSnapshot → WorkloadRequirements → SchedulingDecision
  unfolding candidates_of sort
  schedule_workload nodes req = decide_by (sort (candidates_of nodes req))
