-- ===== src/Core/Tests.antt =====
-- Small inputs of the scheduler and of the choice of a host port, and what the code does on them.
pub mod Limits
use Prim.Native.Nat.{Ordering}
use devion.Prelude.{
  ℕ, String, ◌≡◌, refl, Bool, true, none, some, List, [], ◌∷◌, ltb, arith, ◌+◌, ◌*◌, ◌/◌, ◌≤◌, ◌∈◌,
  ◌⊎◌, ◌↔◌, has,
}
use devion.Core.Ports.{
  nat, other, choose_dynamic_host_port, host_port_policy_error, seed_offset, invalid_port,
  privileged_port_forbidden, reserved_port, dynamic_host_port_min, dynamic_host_port_max,
}
use devion.Core.Ports.Choice.{
  IsFree, choose_dynamic_host_port-IsFree, choose_dynamic_host_port-none, probe_free,
}
use devion.Core.Contracts.{
  NodeSnapshot, WorkloadRequirements, NodeStatus, ready, offline, container, ResourceQuantity,
}
use devion.Core.Scheduler.{
  Platform, schedule_workload, score_node, available, insert, label, port_reasons, label_reasons,
  compare_candidates, reasons_against, eligible, balanced_load, no_eligible_node,
}
use devion.Core.Scheduler.Eligible.{IsEligible}
use devion.Core.Scheduler.Choice.{
  schedule, IsOrdered, Precedes, candidate, schedule_workload-IsEligible, schedule_workload_best,
}

-- Scores in thousandths, and the collation that puts every text level.
abbrev pub coarse : Platform
coarse = record {
  Float = ℕ;
  of_nat = λ n. n * 1000;
  add = λ a b. a + b;
  div = λ a b. a * 1000 / b;
  lt = ltb;
  locale_compare = λ s t. Ordering.eq;
}

coarse-IsOrdered : IsOrdered coarse
coarse-IsOrdered = record {
  lt_asymm = λ a b h. ground arith;
  lt_cotrans = λ a b c h k. ground arith;
  locale_total = λ s t h. ground arith;
  locale_trans = λ s t u h k. h;
}

abbrev pub quantity : ℕ → ℕ → ResourceQuantity
quantity n r = record { capacity = n; allocatable = n; reserved = r; usage = 0 }

abbrev pub node : String → NodeStatus → ℕ → NodeSnapshot
node id status used = record {
  id = id;
  status = status;
  scheduling_enabled = Bool.true;
  architecture = "amd64";
  region = some "de-fra";
  labels = ("storage", "nvme") ∷ [];
  runtimes = container ∷ [];
  resources = record {
    cpu_milli = quantity 4000 used;
    memory_mib = quantity 8192 0;
    storage_mib = quantity 20000 0;
  };
  reserved_host_ports = none;
}

abbrev pub demand : WorkloadRequirements
demand = record {
  cpu_milli = 500;
  memory_mib = 512;
  storage_mib = 1024;
  runtime = container;
  architecture = none;
  region = some "de-fra";
  required_labels = some (("storage", "nvme") ∷ []);
  required_node_id = none;
  requested_host_ports = none;
}

abbrev pub fleet : List NodeSnapshot
fleet = node "down" offline 0 ∷ node "busy" ready 3000 ∷ node "idle" ready 0 ∷ []

fleet_placement :
    schedule coarse fleet demand
    ≡ record { node_id = some "idle"; reasons = eligible ∷ balanced_load ∷ [] }
unfolding schedule_workload score_node available insert compare_candidates reasons_against
    port_reasons label_reasons label
fleet_placement = refl

schedule_workload-IsEligible_example :
    ((n : NodeSnapshot) × (n ∈ fleet)
      × IsEligible n demand
      × (schedule coarse fleet demand
          ≡ record { node_id = some n.id; reasons = eligible ∷ balanced_load ∷ [] }))
    ⊎ (((n : NodeSnapshot) → n ∈ fleet → ¬ IsEligible n demand)
        × (schedule coarse fleet demand
            ≡ record { node_id = none; reasons = no_eligible_node ∷ [] }))
schedule_workload-IsEligible_example = schedule_workload-IsEligible coarse fleet demand

named : (schedule coarse fleet demand).node_id ≡ some "idle"
named = rw fleet_placement refl

schedule_workload_best_example :
    (n : NodeSnapshot) × (n ∈ fleet)
    × (n.id ≡ "idle")
    × ((m : NodeSnapshot)
        → m ∈ fleet
        → IsEligible m demand
        → Precedes coarse coarse-IsOrdered (candidate coarse n) (candidate coarse m))
schedule_workload_best_example =
    schedule_workload_best coarse coarse-IsOrdered fleet demand "idle" named

-- The search from the seed "a" takes its first attempt.
free_port : choose_dynamic_host_port [] (97 ∷ []) ≡ some 30097
unfolding choose_dynamic_host_port seed_offset
free_port = probe_free [] 97 9999 0 refl

choose_dynamic_host_port-IsFree_example :
    IsFree [] 30097 × (host_port_policy_error (nat 30097) ≡ none)
choose_dynamic_host_port-IsFree_example =
    choose_dynamic_host_port-IsFree [] (97 ∷ []) 30097 free_port

-- A web port is reserved for the platform, a system port is privileged, and there is no port 70000.
policy :
    (host_port_policy_error (nat 3000) ≡ some reserved_port)
    × (host_port_policy_error (nat 443) ≡ some privileged_port_forbidden)
    × (host_port_policy_error (nat 70000) ≡ some invalid_port)
    × (host_port_policy_error other ≡ some invalid_port)
unfolding host_port_policy_error
policy = (refl, refl, refl, refl)
