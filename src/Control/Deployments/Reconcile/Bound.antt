-- ===== src/Control/Deployments/Reconcile/Bound.antt =====
-- The loop over the missing replicas places no more of them than are missing.
use mathlib.Core.Option.{some-injective}
use devion.Prelude.{
  ℕ, zero, suc, ◌+◌, ◌≤◌, String, ◌≡◌, refl, sym, ap, ◌∙◌, inl, inr, some, List, [], ◌∷◌, ◌===◌,
  length, length-append, Bool-cases, Option-cases, arith,
}
use devion.Core.Contracts.{WorkloadRequirements, NodeSnapshot}
use devion.Core.Scheduler.{schedule_workload}
use devion.Control.Store.{Workload, Db}
use devion.Control.Env.{Env}
use devion.Control.Refresh.{refresh_deployment_status}
use devion.Control.Refresh.Laws.{refresh_deployment_status-SameRest}
use devion.Control.Deployments.Claims.{
  Claim, stop, moved, kept, fail_deployment, bind_volumes, set_requirements, after_claim,
  claim_volumes,
}
use devion.Control.Deployments.Placement.{Job, place}
use devion.Control.Deployments.Placement.Recovery.{place_halted}
use devion.Control.Deployments.Placement.Rows.{place_placed}
use devion.Control.Deployments.Reconcile.{is_manual, is_later, exhausted, place_missing}
use devion.Control.Deployments.Reconcile.Fuel.{Claim-cases, Placed-cases}

module _ (env : Env) where
  open env use {Json, platform}

  abbrev claimed_workloads : Claim Json → List Workload
  claimed_workloads (stop db) = db.workloads
  claimed_workloads (moved r db) = db.workloads
  claimed_workloads (kept r db) = db.workloads

  after_claim-workloads :
      (id node_id : String) (r : WorkloadRequirements) (claimed : List String) (db : Db Json)
      → claimed_workloads (after_claim env id node_id r claimed db) ≡ db.workloads
  unfolding fail_deployment set_requirements
  after_claim-workloads id node_id r [] db = refl
  after_claim-workloads id node_id r (c ∷ d ∷ l) db = refl
  after_claim-workloads id node_id r (c ∷ []) db = elim (Bool-cases (c === node_id)) [
    | inl t ↦ rw t refl
    | inr f ↦ rw f refl
  ]

  claim_volumes-workloads :
      (id : String) (ids : List String) (node_id : String) (r : WorkloadRequirements) (db : Db Json)
      → claimed_workloads (claim_volumes env id ids node_id r db) ≡ db.workloads
  unfolding claim_volumes bind_volumes
  claim_volumes-workloads id [] node_id r db = refl
  claim_volumes-workloads id (v ∷ vs) node_id r db =
      after_claim-workloads id node_id r _ (bind_volumes (v ∷ vs) node_id db)

  same_workloads : (x db' : Db Json) → some x ≡ some db' → length db'.workloads ≡ length x.workloads
  same_workloads x db' e = ap (λ (d : Db Json). length d.workloads) (sym (some-injective _ _ e))

  refreshed_workloads :
      (now : ℕ) (id : String) (db : Db Json)
      → length (refresh_deployment_status now id db).1.workloads ≡ length db.workloads
  refreshed_workloads now id db = ap length (refresh_deployment_status-SameRest now id db).workloads

  failed_workloads :
      (id : String) (db : Db Json)
      → length (fail_deployment id exhausted db).workloads ≡ length db.workloads
  unfolding fail_deployment
  failed_workloads id db = refl

  -- Whatever the fuel, the loop adds no more workloads than replicas are missing.
  pub place_missing_bound :
      (fuel left : ℕ) (job : Job env) (ids : List String) (r : WorkloadRequirements)
      (candidates : List NodeSnapshot) (db db' : Db Json)
      → place_missing env fuel left job ids r candidates db ≡ some db'
      → length db'.workloads ≤ length db.workloads + left
  unfolding place_missing
  place_missing_bound zero left job ids r candidates db db' e = cc
  place_missing_bound (suc fuel) zero job ids r candidates db db' e =
      omega (arith, same_workloads _ db' e, refreshed_workloads job.now job.deployment.id db)
  place_missing_bound (suc fuel) (suc left) job ids r candidates db db' e =
      let decision = schedule_workload platform candidates r in
      elim (Bool-cases (is_manual job.deployment.recovery_state)) [
        | inl m ↦ omega (
          arith,
          same_workloads _ db' (rw (m, place_missing) at e),
          failed_workloads job.deployment.id db,
        )
        | inr m ↦ elim (Bool-cases (is_later job.deployment.recovery_next_attempt_at job.now)) [
          | inl l ↦ omega (arith, same_workloads _ db' (rw l at (rw (m, place_missing) at e)))
          | inr l ↦ elim (Option-cases decision.node_id) [
            | inl n ↦ omega (
              arith,
              same_workloads _ db' (rw n at (rw l at (rw (m, place_missing) at e))),
              refreshed_workloads job.now job.deployment.id db,
            )
            | inr (node_id, n) ↦
                let here = rw n at (rw l at (rw (m, place_missing) at e)) in
                let claimed : length
                      (claimed_workloads (claim_volumes env job.deployment.id ids node_id r db))
                    ≡ length db.workloads =
                  ap length (claim_volumes-workloads job.deployment.id ids node_id r db) in
                elim (Claim-cases env (claim_volumes env job.deployment.id ids node_id r db)) [
                  | inl (d, k) ↦ omega (arith, same_workloads _ db' (rw k at here), rw k at claimed)
                  | inr (inl (r', d, k)) ↦ omega (
                    arith,
                    place_missing_bound fuel (suc left) job ids r' candidates d db' (rw k at here),
                    rw k at claimed,
                  )
                  | inr (inr (r', d, k)) ↦
                      elim (Placed-cases env
                        (place env job node_id decision.reasons r' candidates d)) [
                          | inl (d', h) ↦
                              let same =
                                ap length
                                  (place_halted env job node_id decision.reasons r' candidates d d'
                                    h).workloads in
                              omega (
                                arith,
                                same_workloads _ db' (rw h at (rw k at here)),
                                rw k at claimed,
                                same,
                              )
                          | inr (r'', cs, d', h) ↦
                              let grown =
                                ap length
                                  (place_placed env job node_id decision.reasons r' r'' candidates
                                    cs d d' h).workloads
                                ∙ length-append d.workloads _ in
                              omega (
                                arith,
                                place_missing_bound fuel left job ids r'' cs d' db'
                                    (rw h at (rw k at here)),
                                rw k at claimed,
                                grown,
                              )
                        ]
                ]
          ]
        ]
      ]
