-- ===== src/Control/Agents/Observed.antt =====
-- The ports that an agent observed: `replaceObservedWorkloadPorts` of
-- apps/api/src/routes/nodes.routes.ts.
use devion.Prelude.{
  same_codes, ℕ, ◌+◌, ◌-◌, ◌*◌, String, Bool, true, false, ◌&&◌, ◌||◌, not, Option, none, some,
  List, [], ◌∷◌, ◌++◌, leb, ◌==◌, ◌===◌, if◌then◌else◌, filter, find, all, flat_map, is_nil,
  or_else, codes, split,
}
use devion.Core.Ports.{PortProtocol, tcp, udp}
use devion.Core.Scheduler.{same_protocol}
use devion.Control.Store.{
  WorkloadPort, ConfiguredPort, Exposure, private, public, Db, find_deployment,
}
use devion.Control.Env.{Env}
use devion.Control.Agents.{refers_to}

abbrev pub is_digit : ℕ → Bool
is_digit c = leb 48 c && leb c 57

abbrev pub read_number : ℕ → List ℕ → ℕ
read_number n [] = n
read_number n (c ∷ cs) = read_number (n * 10 + (c - 48)) cs

abbrev pub read_protocol : List ℕ → Option PortProtocol
read_protocol cs =
    if same_codes cs (codes "tcp")
    then some tcp
    else if same_codes cs (codes "udp")
    then some udp
    else none

-- `/^(\d+)\/(tcp|udp)$/`.
abbrev pub read_parts : List (List ℕ) → Option (ℕ × PortProtocol)
read_parts (number ∷ protocol ∷ []) =
    if is_nil number || not (all is_digit number)
    then none
    else elim (read_protocol protocol) [ none ↦ none | some p ↦ some (read_number 0 number, p) ]
read_parts _ = none

abbrev pub read_key : String → Option (ℕ × PortProtocol)
read_key key = read_parts (split 47 (codes key))

abbrev pub is_public : Exposure → Bool
is_public public = true
is_public private = false

abbrev pub is_configured : ℕ → PortProtocol → ConfiguredPort → Bool
is_configured port protocol c =
    c.container_port == port && same_protocol (or_else c.protocol tcp) protocol

-- The row for one reported port, if the first configured port like it is public.
abbrev pub observe : ℕ → String → String → List ConfiguredPort → String × ℕ → List WorkloadPort
observe now node_id workload_id configured (key, host_port) = elim (read_key key) [
  | none ↦ []
  | some (port, protocol) ↦ elim (find (is_configured port protocol) configured) [
    | none ↦ []
    | some c ↦
        if is_public (or_else c.exposure private)
        then record {
          workload_id = workload_id;
          node_id = node_id;
          container_port = port;
          host_port = host_port;
          protocol = protocol;
          observed_at = now;
        }
          ∷ []
        else []
  ]
]

module _ (env : Env) where
  open env use {Json, parse_configured_ports}

  abbrev pub configured_ports : String → Db Json → List ConfiguredPort
  configured_ports id db = elim (find_deployment id db) [
    | none ↦ []
    | some d ↦ parse_configured_ports d.runtime_config
  ]

  unfoldable pub replace_observed_workload_ports :
      ℕ → String → String → List (String × ℕ) → Db Json → Db Json
  replace_observed_workload_ports now node_id workload_id ports db =
      elim (find (λ w. w.id === workload_id && refers_to node_id w.node_id) db.workloads) [
        | none ↦ db
        | some w ↦ record db {
          ports =
              filter (λ p. not (p.workload_id === workload_id)) db.ports
              ++ flat_map (observe now node_id workload_id (configured_ports w.deployment_id db))
                  ports;
        }
      ]
