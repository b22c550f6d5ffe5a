-- ===== src/Control/Deployments/Assign.antt =====
-- Host ports of one replica: the requested ports, their assignment on the chosen node, the rewritten
-- runtime configuration, and the insertion of the reservations under the table's unique indexes
-- (packages/db/drizzle/0040_tcp_udp_port_reservations.sql).
pub mod Free
use Prim.Native.Char.{code}
use devion.Prelude.{
  ℕ, zero, suc, ◌+◌, ◌-◌, ◌/◌, ◌%◌, String, Bool, true, false, ◌&&◌, ◌||◌, not, Option, none, some,
  List, [], ◌∷◌, ◌++◌, ltb, ◌==◌, ◌===◌, if◌then◌else◌, or_else, filter, find, any, length,
}
use devion.Core.Ports.{PortProtocol, tcp, udp, choose_dynamic_host_port}
use devion.Core.Contracts.{HostPort}
use devion.Core.Scheduler.{same_protocol}
use devion.Control.Store.{Exposure, public, RuntimePort, ReservationStatus, PortReservation}
use devion.Control.Deployments.Candidates.{is_active}

pub record AssignedPort : Type 0 where
  pub container_port : ℕ
  pub protocol : PortProtocol
  pub host_port : ℕ

abbrev pub is_public : Option Exposure → Bool
is_public (some public) = true
is_public _ = false

-- `port.requestedHostPort ?? port.externalPort`.
abbrev pub fixed_port : RuntimePort → Option ℕ
fixed_port p = elim p.requested_host_port [ none ↦ p.external_port | some n ↦ some n ]

abbrev pub protocol_of : RuntimePort → PortProtocol
protocol_of p = or_else p.protocol tcp

-- The fixed public ports; the schema allows no port 0, which would count as absent.
unfoldable pub requested_host_ports : List RuntimePort → List HostPort
requested_host_ports [] = []
requested_host_ports (p ∷ ps) =
    let rest = requested_host_ports ps in
    elim (fixed_port p) [
      | none ↦ rest
      | some n ↦
          if is_public p.exposure && not (n == 0)
          then record { host_port = n; protocol = protocol_of p } ∷ rest
          else rest
    ]

-- The first UTF-16 code unit of each character, as `charCodeAt(0)` gives it.
abbrev pub unit : ℕ → ℕ
unit c = if ltb c 65536 then c else 55296 + (c - 65536) / 1024

abbrev pub units : String → List ℕ
units String.[] = []
units (String.◌∷◌ c s) = unit (code c) ∷ units s

-- Decimal digits, with fuel; a number has no more digits than its value plus one.
abbrev pub digits_from : ℕ → ℕ → List ℕ → List ℕ
digits_from zero n acc = acc
digits_from (suc fuel) n acc =
    let more = digits_from fuel (n / 10) ((48 + n % 10) ∷ acc) in
    if ltb n 10 then (48 + n) ∷ acc else more

abbrev pub protocol_name : PortProtocol → String
protocol_name tcp = "tcp"
protocol_name udp = "udp"

-- `${workloadId}:${containerPort}/${protocol}`.
unfoldable pub port_seed : String → ℕ → PortProtocol → List ℕ
port_seed workload_id container_port protocol =
    units workload_id
    ++ (58
        ∷ (digits_from (suc container_port) container_port []
            ++ (47 ∷ units (protocol_name protocol))))

-- The occupied host ports of a protocol.
abbrev pub occupied_of : PortProtocol → List HostPort → List ℕ
occupied_of protocol [] = []
occupied_of protocol (p ∷ ps) =
    if same_protocol p.protocol protocol
    then p.host_port ∷ occupied_of protocol ps
    else occupied_of protocol ps

abbrev pub host_port_for : String → List HostPort → RuntimePort → Option ℕ
host_port_for workload_id occupied p = elim (fixed_port p) [
  | some n ↦ some n
  | none ↦
      choose_dynamic_host_port (occupied_of (protocol_of p) occupied)
        (port_seed workload_id p.container_port (protocol_of p))
]

-- The ports get their host ports in order; each is occupied for the ports behind it.
unfoldable pub assign_host_ports : String → List HostPort → List RuntimePort → List AssignedPort
assign_host_ports workload_id occupied [] = []
assign_host_ports workload_id occupied (p ∷ ps) =
    let skip = assign_host_ports workload_id occupied ps in
    elim (host_port_for workload_id occupied p) [
      | none ↦ skip
      | some n ↦
          let taken =
            assign_host_ports workload_id
              (record { host_port = n; protocol = protocol_of p } ∷ occupied) ps in
          if not (is_public p.exposure) || n == 0
          then skip
          else record { container_port = p.container_port; protocol = protocol_of p; host_port = n }
            ∷ taken
    ]

abbrev pub public_ports : List RuntimePort → List RuntimePort
public_ports ps = filter (λ p. is_public p.exposure) ps

-- The ports of the command's runtime configuration.
unfoldable pub rewrite_ports : List AssignedPort → List RuntimePort → List RuntimePort
rewrite_ports assigned [] = []
rewrite_ports assigned (p ∷ ps) =
    (elim (find
      (λ a. a.container_port == p.container_port && same_protocol a.protocol (protocol_of p))
      assigned) [
        | none ↦ p
        | some a ↦ record p { requested_host_port = none; external_port = some a.host_port }
      ])
    ∷ rewrite_ports assigned ps

-- Two active reservations of one port of a node, which the one unique index does not allow.
abbrev pub clashes_on_host : PortReservation → PortReservation → Bool
clashes_on_host r s =
    is_active r.status
    && is_active s.status
    && r.node_id === s.node_id
    && r.host_port == s.host_port
    && same_protocol r.protocol s.protocol

-- Two reservations of one port of a workload, which the other does not allow.
abbrev pub clashes_in_workload : PortReservation → PortReservation → Bool
clashes_in_workload r s =
    r.workload_id === s.workload_id
    && r.container_port == s.container_port
    && same_protocol r.protocol s.protocol

abbrev pub clashes : PortReservation → PortReservation → Bool
clashes r s = clashes_on_host r s || clashes_in_workload r s

abbrev pub reservation : String → String → String → AssignedPort → PortReservation
reservation id node_id workload_id a = record {
  id = id;
  node_id = node_id;
  workload_id = workload_id;
  container_port = a.container_port;
  host_port = a.host_port;
  protocol = a.protocol;
  status = ReservationStatus.reserved;
  released_at = none;
}

-- The insertion of all rows, or the violation of a unique index.
unfoldable pub insert_reservations :
    List PortReservation → List PortReservation → Option (List PortReservation)
insert_reservations table [] = some table
insert_reservations table (r ∷ rs) =
    let rest = insert_reservations (table ++ r ∷ []) rs in
    if any (clashes r) table then none else rest
