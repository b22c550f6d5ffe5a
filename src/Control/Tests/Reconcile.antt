-- ===== src/Control/Tests/Reconcile.antt =====
-- Reconciliations, volume claims and placements on small tables.
use devion.Prelude.{any, length, ℕ, ◌≤◌, String, ◌≡◌, refl, false, none, some, [], ◌∷◌, All, arith}
use devion.Core.Ports.{tcp, udp, PortProtocol}
use devion.Core.Scheduler.{eligible}
use devion.Core.Tests.{demand}
use devion.Control.Store.{ActualState, PortReservation, Db, VolumeStatus}
use devion.Control.Deployments.Assign.{assign_host_ports, insert_reservations, reservation}
use devion.Control.Deployments.Assign.Free.{same_host_port, occupies, assign_host_ports-AreFree}
use devion.Control.Store.Rows.{AllApart}
use devion.Control.Store.{RuntimePort, public}
use devion.Control.Deployments.Candidates.{active_ports}
use devion.Control.Deployments.Claims.{
  moved, claim_volumes, bind_volumes, node_ids, set_requirements, require_node,
}
use devion.Control.Deployments.Claims.Affinity.{IsPinned, claim_volumes-IsPinned}
use devion.Control.Deployments.Placement.{Job, halted, place, give_up, write_placement}
use devion.Control.Deployments.Placement.Recovery.{IsStopped, place_halted}
use devion.Control.Deployments.Reconcile.{Outcome, returned, lease, reconcile_deployment}
use devion.Control.Deployments.Reconcile.Lease.{
  holds_on, reconcile_deployment_leased, reconcile_deployment_released,
}
use devion.Control.Deployments.Reconcile.Fuel.{
  Returns, place_missing-Returns, reconcile_deployment-Returns,
}
use devion.Control.Deployments.Candidates.{load_candidates}
use devion.Control.Deployments.Reconcile.{place_missing}
use devion.Control.Deployments.Reconcile.Bound.{place_missing_bound}
use devion.Control.Tests.{env, web, task, plane}

abbrev empty : Db ℕ
empty = plane 0 [] []

reconcile_deployment-Returns_example :
    (outcome : Outcome) × (db' : Db ℕ) × (reconcile_deployment env 7 "web" empty
      ≡ some (outcome, db'))
reconcile_deployment-Returns_example = reconcile_deployment-Returns env 7 "web" empty

reconcile_deployment_leased_example :
    let held = lease env 7 "first" "web" empty in
    reconcile_deployment env 50000 "web" held ≡ some (returned, record held { fresh = 2 })
reconcile_deployment_leased_example =
    reconcile_deployment_leased env 7 50000 "web" "first" empty (omega arith) ((λ _. refl), tt)

run_web :
    (outcome : Outcome) × (db' : Db ℕ) × (reconcile_deployment env 7 "web" empty
      ≡ some (outcome, db'))
run_web = reconcile_deployment-Returns env 7 "web" empty

reconcile_deployment_released_example :
    All (λ d. holds_on env "first" "web" d ≡ false) run_web.1.deployments
reconcile_deployment_released_example =
    reconcile_deployment_released env 7 "web" empty run_web.0 run_web.1 (refl, tt) run_web.2

-- The volume lies on another node than the chosen one.
abbrev bound : Db ℕ
bound = record (plane 2 [] []) {
  volumes =
      record {
        id = "data";
        runtime_name = "devion-data";
        status = VolumeStatus.in_use;
        node_id = some "east";
      }
      ∷ [];
}

moved_to :
    claim_volumes env "web" ("data" ∷ []) "idle" demand bound
    ≡ moved (require_node "east" demand) (
        set_requirements env "web"
          (require_node "east" demand)
          (bind_volumes ("data" ∷ []) "idle" bound))
unfolding claim_volumes bind_volumes node_ids
moved_to = refl

claim_volumes-IsPinned_example :
    (c : String) × IsPinned env ("data" ∷ []) c (require_node "east" demand) (
      set_requirements env "web"
        (require_node "east" demand)
        (bind_volumes ("data" ∷ []) "idle" bound))
claim_volumes-IsPinned_example =
    claim_volumes-IsPinned env "web" ("data" ∷ []) "idle" demand (require_node "east" demand) bound
      _ moved_to

abbrev row : String → String → PortProtocol → PortReservation
row id workload_id protocol =
    reservation id "idle" workload_id
      (record { container_port = 53; protocol = protocol; host_port = 53000 })

rows_inserted :
    insert_reservations (row "a" "dns" tcp ∷ []) (row "b" "dns" udp ∷ [])
    ≡ some (row "a" "dns" tcp ∷ row "b" "dns" udp ∷ [])
unfolding insert_reservations
rows_inserted = refl

-- Two public ports of which the platform chooses both, beside a port that it gave before.
abbrev open_port : ℕ → RuntimePort
open_port n = record {
  container_port = n;
  protocol = some tcp;
  exposure = some public;
  requested_host_port = none;
  external_port = none;
}

abbrev given : PortReservation
given = record (row "a" "web" tcp) { host_port = 30000 }

assign_host_ports-AreFree_example :
    let assigned =
      assign_host_ports "first"
        (active_ports "idle" (given ∷ []))
        (open_port 80 ∷ open_port 443 ∷ []) in
    All
      (λ a.
        (30000 ≤ a.host_port)
        × (a.host_port ≤ 39999)
        × (any (occupies "idle" a) (given ∷ []) ≡ false))
      assigned
    × AllApart same_host_port assigned
assign_host_ports-AreFree_example =
    assign_host_ports-AreFree "idle" "first" (given ∷ []) (open_port 80 ∷ open_port 443 ∷ [])
      (refl, (refl, tt))

-- The same host port and protocol for another workload is refused.
rows_refused : insert_reservations (row "a" "dns" tcp ∷ []) (row "b" "resolver" tcp ∷ []) ≡ none
unfolding insert_reservations
rows_refused = refl

abbrev job : ℕ → ℕ → Job env
job config attempts = record {
  now = 7;
  deployment = record (web config) { recovery_attempts = attempts };
  current = task ActualState.failed ∷ [];
  persistent = false;
}

spent :
    place env (job 0 5) "idle" (eligible ∷ []) demand [] empty
    ≡ halted (give_up env (job 0 5) (some (task ActualState.failed)) empty)
unfolding place assign_host_ports give_up
spent = refl

place_halted_example :
    IsStopped env "web" empty (give_up env (job 0 5) (some (task ActualState.failed)) empty)
place_halted_example = place_halted env (job 0 5) "idle" (eligible ∷ []) demand [] empty _ spent

-- A failed workload with a fixed public port is replaced.
abbrev put : Db ℕ
put =
    write_placement env (job 1 0) "first" "idle" (eligible ∷ []) (some (task ActualState.failed)) 1
      demand (record { container_port = 25565; protocol = tcp; host_port = 25565 } ∷ [])
      (reservation "later" "idle" "first"
          (record { container_port = 25565; protocol = tcp; host_port = 25565 })
        ∷ [])
      (plane 1 [] [])

-- One replica is missing, and one node may take it.
run_loop : Returns (place_missing env 3 1 (job 0 0) [] demand (load_candidates env empty) empty)
run_loop =
    place_missing-Returns env (job 0 0) [] 1 3 demand (load_candidates env empty) empty
      (omega arith)

place_missing_bound_example : length run_loop.0.workloads ≤ 1
place_missing_bound_example =
    place_missing_bound env 3 1 (job 0 0) [] demand (load_candidates env empty) empty run_loop.0
      run_loop.1
