-- ===== src/Control/Deployments/Reconcile/Fuel.antt =====
-- The loop over the missing replicas ends within its fuel: a volume claim sends a replica to another
-- node once at most, since the scheduler then chooses that node or none.
use devion.Prelude.{
  ℕ, zero, suc, ◌*◌, ◌<◌, String, ◌≡◌, refl, sym, ap, ◌∙◌, inl, inr, false, Option, none, some,
  List, ◌===◌, ===_iff, Bool-cases, Option-cases, arith, ◌⊎◌, is_nil, not, ltb, ◌&&◌, length,
  filter, ◌-◌, any, ◌==◌,
}
use mathlib.Core.Option.{some-injective}
use devion.Core.Contracts.{WorkloadRequirements, NodeSnapshot}
use devion.Core.Scheduler.{SchedulingDecision, schedule_workload}
use devion.Core.Scheduler.Choice.{schedule_workload-IsEligible}
use devion.Control.Store.{Db, Deployment, is_running, find_deployment}
use devion.Control.Deployments.Candidates.{load_candidates}
use devion.Control.Deployments.Assign.{requested_host_ports}
use devion.Control.Env.{Env}
use devion.Control.Deployments.Claims.{Claim, stop, moved, kept, claim_volumes}
use devion.Control.Deployments.Claims.Affinity.{
  IsPinned, claim_volumes-IsPinned, claim_volumes_pinned,
}
use devion.Control.Deployments.Placement.{Job, Placed, halted, placed, place}
use devion.Control.Deployments.Reconcile.{
  is_manual, is_later, place_missing, reconcile_replicas, reconcile_running,
  reconcile_deployment_claimed, reconcile_deployment, Outcome, returned, returning, is_unhealthy,
  is_counted, after_check, reconcile_found, can_lease, lease, release,
}

-- A result that exists.
abbrev pub Returns {ℓ} : {A : Type ℓ} → Option A → Type ℓ
Returns {A} o = (a : A) × (o ≡ some a)

module _ (env : Env) where
  open env use {Json, platform}

  -- A required node is the only one that the scheduler names.
  schedule_required :
      (nodes : List NodeSnapshot) (r : WorkloadRequirements) (c id : String)
      → r.required_node_id ≡ some c
      → (c === "") ≡ false
      → (schedule_workload platform nodes r).node_id ≡ some id
      → id ≡ c
  schedule_required nodes r c id q ne e = elim (schedule_workload-IsEligible platform nodes r) [
    | inr (_, none_left) ↦ cc (ap (λ (d : SchedulingDecision). d.node_id) none_left)
    | inl (n, m, el, named) ↦
        let same : n.id ≡ c = some-injective _ _ (el.affinity c q (λ z. cc ((===_iff c "").1 z))) in
        let chosen : some n.id ≡ some id =
          sym (ap (λ (d : SchedulingDecision). d.node_id) named) ∙ e in
        sym (some-injective _ _ chosen) ∙ same
  ]

  pub Claim-cases :
      (k : Claim Json)
      → ((db : Db Json) × (k ≡ stop db))
        ⊎ ((r : WorkloadRequirements) × (db : Db Json) × (k ≡ moved r db))
        ⊎ ((r : WorkloadRequirements) × (db : Db Json) × (k ≡ kept r db))
  Claim-cases (stop db) = inl (db, refl)
  Claim-cases (moved r db) = inr (inl (r, db, refl))
  Claim-cases (kept r db) = inr (inr (r, db, refl))

  pub Placed-cases :
      (k : Placed Json)
      → ((db : Db Json) × (k ≡ halted db))
        ⊎ ((r : WorkloadRequirements) × (cs : List NodeSnapshot) × (db : Db Json) × (k
              ≡ placed r cs db))
  Placed-cases (halted db) = inl (db, refl)
  Placed-cases (placed r cs db) = inr (r, cs, db, refl)

  module _ (job : Job env) (ids : List String) where
    -- A round returns if the rounds behind it do.
    round-Returns :
        (fuel left : ℕ) (r : WorkloadRequirements) (candidates : List NodeSnapshot) (db : Db Json)
        → ((r' : WorkloadRequirements) (cs : List NodeSnapshot) (db' : Db Json)
            → Returns (place_missing env fuel left job ids r' cs db'))
        → ((node_id : String) (r' : WorkloadRequirements) (db' : Db Json)
            → (schedule_workload platform candidates r).node_id ≡ some node_id
            → claim_volumes env job.deployment.id ids node_id r db ≡ moved r' db'
            → Returns (place_missing env fuel (suc left) job ids r' candidates db'))
        → Returns (place_missing env (suc fuel) (suc left) job ids r candidates db)
    unfolding place_missing
    round-Returns fuel left r candidates db next again =
        elim (Bool-cases (is_manual job.deployment.recovery_state)) [
          | inl m ↦ rw (m, place_missing) (_, refl)
          | inr m ↦ elim (Bool-cases (is_later job.deployment.recovery_next_attempt_at job.now)) [
            | inl l ↦ rw (m, place_missing) (rw l (_, refl))
            | inr l ↦ elim (Option-cases (schedule_workload platform candidates r).node_id) [
              | inl e ↦ rw (m, place_missing) (rw l (rw e (_, refl)))
              | inr (n, e) ↦ elim (Claim-cases (claim_volumes env job.deployment.id ids n r db)) [
                | inl (d, k) ↦ rw (m, place_missing) (rw l (rw e (rw k (_, refl))))
                | inr (inl (r', d, k)) ↦
                    rw (m, place_missing) (rw l (rw e (rw k (again n r' d e k))))
                | inr (inr (r', d, k)) ↦
                    elim (Placed-cases (
                      place env job n (schedule_workload platform candidates r).reasons r'
                        candidates d)) [
                          | inl (d', h) ↦
                              rw (m, place_missing) (rw l (rw e (rw k (rw h (_, refl)))))
                          | inr (r'', cs, d', h) ↦
                              rw (m, place_missing) (rw l (rw e (rw k (rw h (next r'' cs d')))))
                        ]
              ]
            ]
          ]
        ]

    -- On volumes that are pinned to the required node a round is not sent back.
    pinned-Returns :
        (fuel left : ℕ) (c : String) (r : WorkloadRequirements) (candidates : List NodeSnapshot)
        (db : Db Json)
        → IsPinned env ids c r db
        → ((r' : WorkloadRequirements) (cs : List NodeSnapshot) (db' : Db Json)
            → Returns (place_missing env fuel left job ids r' cs db'))
        → Returns (place_missing env (suc fuel) (suc left) job ids r candidates db)
    pinned-Returns fuel left c r candidates db p next =
        round-Returns fuel left r candidates db next λ n r' db' e k.
          let (_, _, keeps) = claim_volumes_pinned env job.deployment.id ids c r db p in
          let same : n ≡ c = schedule_required candidates r c n p.required p.named e in
          cc (ap (λ x. claim_volumes env job.deployment.id ids x r db) same)

    -- Two rounds for each missing replica, and one to finish, are enough.
    pub place_missing-Returns :
        (left fuel : ℕ) (r : WorkloadRequirements) (candidates : List NodeSnapshot) (db : Db Json)
        → 2 * left < fuel
        → Returns (place_missing env fuel left job ids r candidates db)
    unfolding place_missing
    place_missing-Returns left zero r candidates db h = absurd (omega arith)
    place_missing-Returns zero (suc fuel) r candidates db h = (_, refl)
    place_missing-Returns (suc left) (suc zero) r candidates db h = absurd (omega arith)
    place_missing-Returns (suc left) (suc (suc fuel)) r candidates db h =
        round-Returns (suc fuel) left r candidates db
          (λ r' cs db'. place_missing-Returns left (suc fuel) r' cs db' (omega arith))
          λ n r' db' e k.
            let (c, p) = claim_volumes-IsPinned env job.deployment.id ids n r r' db db' k in
            pinned-Returns fuel left c r' candidates db' p
              λ r'' cs db''. place_missing-Returns left fuel r'' cs db'' (omega arith)

  returning-Returns : (o : Option (Db Json)) → Returns o → Returns (returning env o)
  returning-Returns o (db, e) = rw e (_, refl)

  reconcile_replicas-Returns :
      (job : Job env) (ids : List String) (r : WorkloadRequirements) (db : Db Json)
      → Returns (reconcile_replicas env job ids r db)
  unfolding reconcile_replicas
  reconcile_replicas-Returns job ids r db =
      elim (Bool-cases (not job.persistent && not (is_nil (filter is_unhealthy job.current)))) [
        | inl t ↦ rw t (_, refl)
        | inr f ↦
            rw f
              (elim (Bool-cases (
                job.deployment.replicas - length (filter (is_counted job.persistent) job.current)
                == 0)) [
                  | inl t ↦ rw t (_, refl)
                  | inr g ↦ rw g (
                      place_missing-Returns job ids _ _ r (load_candidates env db) db (omega arith))
                ])
      ]

  after_check-Returns :
      (job : Job env) (ids : List String) (k : Claim Json) → Returns (after_check env job ids k)
  after_check-Returns job ids (stop db) = (db, refl)
  after_check-Returns job ids (moved r db) = reconcile_replicas-Returns job ids r db
  after_check-Returns job ids (kept r db) = reconcile_replicas-Returns job ids r db

  reconcile_running-Returns :
      (now : ℕ) (d : Deployment Json) (r : WorkloadRequirements) (db : Db Json)
      → Returns (reconcile_running env now d r db)
  unfolding reconcile_running
  reconcile_running-Returns now d r db =
      elim (Bool-cases (
        not (is_nil (requested_host_ports (env.parse_ports d.runtime_config)))
        && ltb 1 d.replicas)) [ inl t ↦ rw t (_, refl) | inr f ↦ rw f (after_check-Returns _ _ _) ]

  reconcile_found-Returns :
      (now : ℕ) (d : Deployment Json) (o : Option WorkloadRequirements) (db : Db Json)
      → Returns (reconcile_found env now d o db)
  unfolding reconcile_found
  reconcile_found-Returns now d none db = (_, refl)
  reconcile_found-Returns now d (some r) db = elim (Bool-cases (is_running d.desired_state)) [
    | inl t ↦ rw t (returning-Returns _ (reconcile_running-Returns now d r db))
    | inr f ↦ rw f (_, refl)
  ]

  pub reconcile_deployment_claimed-Returns :
      (now : ℕ) (id : String) (db : Db Json) → Returns (reconcile_deployment_claimed env now id db)
  unfolding reconcile_deployment_claimed
  reconcile_deployment_claimed-Returns now id db = elim (Option-cases (find_deployment id db)) [
    | inl e ↦ rw (e, reconcile_deployment_claimed) (_, refl)
    | inr (d, e) ↦
        rw (e, reconcile_deployment_claimed)
          (reconcile_found-Returns now d (env.parse_requirements d.requirements) db)
  ]

  -- A reconciliation always ends, by returning or by the error of the requirements' schema: its fuel
  -- is enough for every deployment, every table and every answer of the scheduler.
  pub reconcile_deployment-Returns :
      (now : ℕ) (id : String) (db : Db Json)
      → (outcome : Outcome) × (db' : Db Json) × (reconcile_deployment env now id db
          ≡ some (outcome, db'))
  unfolding reconcile_deployment
  reconcile_deployment-Returns now id db =
      elim (Bool-cases (any (can_lease env now id) db.deployments)) [
        | inl t ↦
            let ((o, db'), e) =
              reconcile_deployment_claimed-Returns now id
                (lease env now (env.uuid db.fresh) id db) in
            (o, release env (env.uuid db.fresh) id db', rw t (rw e refl))
        | inr f ↦ (returned, record db { fresh = suc db.fresh }, rw f refl)
      ]
