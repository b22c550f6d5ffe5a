-- ===== src/Control/Deployments/Assign/Free.antt =====
-- Host ports that the platform chooses itself are free.
use devion.Prelude.{
  any-All, ◌≡◌, refl, sym, ◌∙◌, inl, inr, String, Bool, false, ◌&&◌, ◌||◌, ◌≤◌, not, none, List, [],
  ◌∷◌, ◌==◌, ◌===◌, has, any, All, All-weaken, Bool-cases, Option-cases, arith,
}
use devion.Core.Ports.{dynamic_host_port_min, dynamic_host_port_max, choose_dynamic_host_port}
use devion.Core.Ports.Choice.{IsFree, choose_dynamic_host_port-IsFree}
use devion.Core.Contracts.{HostPort}
use devion.Core.Scheduler.{same_protocol}
use devion.Control.Store.{RuntimePort, PortReservation}
use devion.Control.Store.Rows.{AllApart}
use devion.Control.Deployments.Candidates.{is_active, active_ports}
use devion.Control.Deployments.Assign.{
  AssignedPort, is_public, fixed_port, protocol_of, occupied_of, port_seed, host_port_for,
  assign_host_ports,
}

-- Two ports that are one on a host.
abbrev pub same_host_port : AssignedPort → AssignedPort → Bool
same_host_port a b = same_protocol a.protocol b.protocol && a.host_port == b.host_port

-- A reservation of the node that is active and has the port on the host.
abbrev pub occupies : String → AssignedPort → PortReservation → Bool
occupies node_id a r =
    is_active r.status
    && r.node_id === node_id
    && same_protocol r.protocol a.protocol
    && r.host_port == a.host_port

host_port_for-dynamic :
    (workload_id : String) (occupied : List HostPort) (p : RuntimePort)
    → fixed_port p ≡ none
    → host_port_for workload_id occupied p
      ≡ choose_dynamic_host_port
          (occupied_of (protocol_of p) occupied)
          (port_seed workload_id p.container_port (protocol_of p))
host_port_for-dynamic workload_id occupied p e = rw (e, host_port_for) refl

-- What is free beside one more occupied port is free, and is another port.
IsFree-behind :
    (occupied : List HostPort) (b a : AssignedPort)
    → IsFree
        (occupied_of a.protocol
          (record { host_port = b.host_port; protocol = b.protocol } ∷ occupied))
        a.host_port
    → IsFree (occupied_of a.protocol occupied) a.host_port × (same_host_port b a ≡ false)
IsFree-behind occupied b a (lo, hi, free) = ground arith

-- The assigned ports are free, and no two of them are one.
abbrev AreFree : List HostPort → List AssignedPort → Type 0
AreFree occupied assigned =
    All (λ a. IsFree (occupied_of a.protocol occupied) a.host_port) assigned
    × AllApart same_host_port assigned

assign-AreFree :
    (workload_id : String) (occupied : List HostPort) (ports : List RuntimePort)
    → All (λ p. fixed_port p ≡ none) ports
    → AreFree occupied (assign_host_ports workload_id occupied ports)
unfolding assign_host_ports
assign-AreFree workload_id occupied [] h = (tt, tt)
assign-AreFree workload_id occupied (p ∷ ports) (e, h) =
    let choice = host_port_for workload_id occupied p in
    elim (Option-cases choice) [
      | inl n ↦ rw (n, assign_host_ports) (assign-AreFree workload_id occupied ports h)
      | inr (n, q) ↦
          let a : AssignedPort = record {
            container_port = p.container_port;
            protocol = protocol_of p;
            host_port = n;
          } in
          elim (Bool-cases (not (is_public p.exposure) || n == 0)) [
            | inl t ↦ rw (q, t, assign_host_ports) (assign-AreFree workload_id occupied ports h)
            | inr t ↦
                let (free, allowed) =
                  choose_dynamic_host_port-IsFree (occupied_of (protocol_of p) occupied) _ n
                    (sym (host_port_for-dynamic workload_id occupied p e) ∙ q) in
                let (all, apart) =
                  assign-AreFree workload_id
                    (record { host_port = n; protocol = protocol_of p } ∷ occupied) ports h in
                rw (q, t, assign_host_ports)
                  (
                    (free, All-weaken _ _ _ (λ b k. (IsFree-behind occupied a b k).0) all),
                    (
                      any-All _ _ (All-weaken _ _ _ (λ b k. (IsFree-behind occupied a b k).1) all),
                      apart,
                    ),
                  )
          ]
    ]

-- A port that is free beside the active ports of the node is not occupied by a reservation.
free-occupies :
    (node_id : String) (a : AssignedPort) (table : List PortReservation)
    → has (occupied_of a.protocol (active_ports node_id table)) a.host_port ≡ false
    → any (occupies node_id a) table ≡ false
free-occupies node_id a [] h = refl
free-occupies node_id a (r ∷ table) h = ground (arith, free-occupies node_id a table)

-- Where no port is fixed, the host ports that a replica is assigned on a node lie in the dynamic
-- range, none of them is taken by an active reservation of that node and protocol, and no two of
-- them are one port of one protocol.
pub assign_host_ports-AreFree :
    (node_id workload_id : String) (table : List PortReservation) (ports : List RuntimePort)
    → All (λ p. fixed_port p ≡ none) ports
    → let assigned = assign_host_ports workload_id (active_ports node_id table) ports in
      All
        (λ a.
          (dynamic_host_port_min ≤ a.host_port)
          × (a.host_port ≤ dynamic_host_port_max)
          × (any (occupies node_id a) table ≡ false))
        assigned
      × AllApart same_host_port assigned
assign_host_ports-AreFree node_id workload_id table ports h =
    let (free, apart) = assign-AreFree workload_id (active_ports node_id table) ports h in
    (All-weaken _ _ _ (λ a (lo, hi, f). (lo, hi, free-occupies node_id a table f)) free, apart)
