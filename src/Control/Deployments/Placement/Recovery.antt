-- ===== src/Control/Deployments/Placement/Recovery.antt =====
-- The backoff of recoveries, and what a placement that stops leaves.
use devion.Prelude.{
  ℕ, zero, suc, ◌-◌, ◌*◌, ◌^◌, ◌≤◌, min, String, ◌≡◌, refl, ap, subst, inl, inr, true, not, Option,
  List, [], ◌∷◌, ◌===◌, ◌==◌, ltb, find, length, All, Bool-cases, Option-cases, arith,
}
use native.Mathlib.Nat.{pow-suc}
use devion.Core.Contracts.{WorkloadRequirements, NodeSnapshot}
use devion.Core.Scheduler.{Reason}
use devion.Control.Store.{Deployment, DeploymentStatus, PortReservation, Db, update_where}
use devion.Control.Env.{Env}
use devion.Control.Deployments.Candidates.{active_ports}
use devion.Control.Deployments.Assign.{assign_host_ports, public_ports, insert_reservations}
use devion.Control.Deployments.Claims.{fail_deployment}
use devion.Control.Deployments.Placement.{
  backoff_ms, max_recovery_attempts, needs_replacement, attempt_after, halted, Job, give_up,
  port_lost, reservations_for, place,
}

one-le-power : (a : ℕ) → 1 ≤ 2 ^ a
one-le-power zero = ground arith
one-le-power (suc a) = omega (arith, pow-suc 2 a, one-le-power a)

backoff_ms-suc : (a : ℕ) → backoff_ms (suc a) ≡ min (30000 * 2 ^ a) 600000
unfolding backoff_ms
backoff_ms-suc a = let e : suc a - 1 ≡ a = omega arith in ap (λ b. min (30000 * 2 ^ b) 600000) e

-- The wait before the next recovery lies between half a minute and ten minutes, and it does not
-- shrink from one attempt to the next.
pub backoff_ms_bounds :
    (attempt : ℕ)
    → (30000 ≤ backoff_ms attempt)
      × (backoff_ms attempt ≤ 600000)
      × (backoff_ms attempt ≤ backoff_ms (suc attempt))
unfolding backoff_ms
backoff_ms_bounds zero = ground arith
backoff_ms_bounds (suc attempt) =
    rw (backoff_ms-suc attempt, backoff_ms-suc (suc attempt))
      (ground (arith, pow-suc 2 attempt, one-le-power attempt))

-- All rows of the deployment count as failed.
abbrev pub HasFailed : {J : Type 0} → String → Db J → Type 0
HasFailed id db =
    All (λ d. (d.id === id) ≡ true → d.status ≡ DeploymentStatus.failed) db.deployments

module _ {J : Type 0} where
  failed_rows :
      (id : String) (write : Deployment J → Deployment J) (ds : List (Deployment J))
      → ((d : Deployment J) → (write d).status ≡ DeploymentStatus.failed)
      → All
          (λ d. (d.id === id) ≡ true → d.status ≡ DeploymentStatus.failed)
          (update_where (λ d. d.id === id) write ds)
  failed_rows id write [] h = tt
  failed_rows id write (d ∷ ds) h = (
    elim (Bool-cases (d.id === id)) [ inl t ↦ rw t (λ _. h d) | inr f ↦ rw f (λ t. cc) ],
    failed_rows id write ds h,
  )

module _ (env : Env) where
  open env use {Json, uuid, parse_ports}

  -- The table of reservations with those of a replica.
  abbrev pub with_reservations : Job env → String → Db Json → Option (List PortReservation)
  with_reservations job node_id db =
      let workload_id = uuid db.fresh in
      insert_reservations db.reservations (
        reservations_for env (suc (suc db.fresh)) node_id workload_id (
          assign_host_ports workload_id (active_ports node_id db.reservations)
            (parse_ports job.deployment.runtime_config)))

  -- No replica was placed, and the deployment counts as failed.
  pub record IsStopped (id : String) (db db' : Db Json) : Type 0 where
    pub workloads : db'.workloads ≡ db.workloads
    pub commands : db'.commands ≡ db.commands
    pub reservations : db'.reservations ≡ db.reservations
    pub failed : HasFailed id db'

  IsStopped_lem :
      (id : String) (x db db' : Db Json)
      → halted x ≡ halted db'
      → IsStopped id db x
      → IsStopped id db db'
  IsStopped_lem id x db db' e h = let q : x ≡ db' = cc in subst (IsStopped id db) q h

  fail_deployment-IsStopped :
      (id reason : String) (db : Db Json) → IsStopped id db (fail_deployment id reason db)
  unfolding fail_deployment
  fail_deployment-IsStopped id reason db = record {
    workloads = refl;
    commands = refl;
    reservations = refl;
    failed = failed_rows id _ db.deployments (λ d. refl);
  }

  -- A placement that stops writes no workload, no command and no reservation, and the deployment
  -- counts as failed.
  pub place_halted :
      (job : Job env) (node_id : String) (reasons : List Reason) (r : WorkloadRequirements)
      (candidates : List NodeSnapshot) (db db' : Db Json)
      → place env job node_id reasons r candidates db ≡ halted db'
      → IsStopped job.deployment.id db db'
  unfolding place give_up port_lost
  place_halted job node_id reasons r candidates db db' e =
      let ports = parse_ports job.deployment.runtime_config in
      let assigned =
        assign_host_ports (uuid db.fresh) (active_ports node_id db.reservations) ports in
      let replacement = find needs_replacement job.current in
      elim (Bool-cases (not (length assigned == length (public_ports ports)))) [
        | inl t ↦
            IsStopped_lem job.deployment.id _ db db' (rw t at e)
              (fail_deployment-IsStopped job.deployment.id _ db)
        | inr f ↦
            elim (Bool-cases (
              ltb max_recovery_attempts
                (attempt_after replacement job.deployment.recovery_attempts))) [
                  | inl t ↦ IsStopped_lem job.deployment.id _ db db' (rw (f, t) at e) (record {
                    workloads = refl;
                    commands = refl;
                    reservations = refl;
                    failed = failed_rows job.deployment.id _ db.deployments (λ d. refl);
                  })
                  | inr g ↦ elim (Option-cases (with_reservations job node_id db)) [
                    | inl n ↦
                        let kept =
                          fail_deployment-IsStopped job.deployment.id
                            "Requested public host port is no longer available" db in
                        IsStopped_lem job.deployment.id (port_lost env job node_id db) db db'
                          (rw (f, g, n) at e)
                          (record {
                            workloads = kept.workloads;
                            commands = kept.commands;
                            reservations = kept.reservations;
                            failed = kept.failed;
                          })
                    | inr (rs, s) ↦ cc (rw (f, g, s) at e)
                  ]
                ]
      ]
