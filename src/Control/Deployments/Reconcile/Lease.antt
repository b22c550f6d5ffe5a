-- ===== src/Control/Deployments/Reconcile/Lease.antt =====
-- The lease of a reconciliation: nobody else works on the deployment while it is held, and it is
-- given back however the work ends.
use devion.Prelude.{
  ℕ, suc, ◌+◌, ◌≤◌, String, ◌≡◌, refl, ap, subst, inl, inr, Bool, true, false, ◌&&◌, Option, none,
  some, List, [], ◌∷◌, ◌===◌, any, All, Bool-cases, arith,
}
use mathlib.Core.Option.{some-injective}
use devion.Control.Store.{Deployment, Db, update_where}
use devion.Control.Env.{Env}
use devion.Control.Deployments.Reconcile.{
  Outcome, returned, lease_is_free, can_lease, lease, holds, release, finally, reconcile_deployment,
}

module _ (env : Env) where
  open env use {Json, uuid}

  abbrev grant : ℕ → String → Deployment Json → Deployment Json
  grant now lease_id d = record d {
    reconcile_lease_id = some lease_id;
    reconcile_lease_until = some (now + 60000);
  }

  none_free :
      (now later : ℕ) (id lease_id : String) (ds : List (Deployment Json))
      → later ≤ now + 60000
      → All (λ d. d.id === id ≡ true → lease_is_free env now d.reconcile_lease_until ≡ true) ds
      → any (can_lease env later id) (update_where (can_lease env now id) (grant now lease_id) ds)
        ≡ false
  none_free now later id lease_id [] h free = refl
  none_free now later id lease_id (d ∷ ds) h (f, fs) = elim (Bool-cases (d.id === id)) [
    | inl t ↦ ground (arith, f t, none_free now later id lease_id ds h fs)
    | inr n ↦ ground (arith, none_free now later id lease_id ds h fs)
  ]

  -- While a lease that was free at `now` runs, a second reconciliation of the deployment returns at
  -- once and changes nothing but the draw of its own lease identifier.
  pub reconcile_deployment_leased :
      (now later : ℕ) (id lease_id : String) (db : Db Json)
      → later ≤ now + 60000
      → All
          (λ d. d.id === id ≡ true → lease_is_free env now d.reconcile_lease_until ≡ true)
          db.deployments
      → let held = lease env now lease_id id db in
        reconcile_deployment env later id held
        ≡ some (returned, record held { fresh = suc held.fresh })
  unfolding reconcile_deployment
  reconcile_deployment_leased now later id lease_id db h free =
      rw (none_free now later id lease_id db.deployments h free) refl

  abbrev pub holds_on : String → String → Deployment Json → Bool
  holds_on lease_id id d = d.id === id && holds env lease_id d.reconcile_lease_id

  released :
      (lease_id id : String) (ds : List (Deployment Json))
      → All
          (λ d. holds_on lease_id id d ≡ false)
          (update_where
            (holds_on lease_id id)
            (λ d. record d { reconcile_lease_id = none; reconcile_lease_until = none })
            ds)
  released lease_id id [] = tt
  released lease_id id (d ∷ ds) = (ground arith, released lease_id id ds)

  finally_released :
      (lease_id id : String) (o : Option (Outcome × Db Json)) (outcome : Outcome) (db' : Db Json)
      → finally env lease_id id o ≡ some (outcome, db')
      → All (λ d. holds_on lease_id id d ≡ false) db'.deployments
  finally_released lease_id id none outcome db' e = cc
  finally_released lease_id id (some (o, db)) outcome db' e =
      let same : release env lease_id id db ≡ db' =
        ap (λ (p : Outcome × Db Json). p.1) (some-injective _ _ e) in
      subst (λ (d : Db Json). All (λ d. holds_on lease_id id d ≡ false) d.deployments) same
        (released lease_id id db.deployments)

  -- Behind a reconciliation no row of the deployment holds its lease, whether it returned or threw,
  -- and whether it had the lease or was turned away, if none held that identifier before.
  pub reconcile_deployment_released :
      (now : ℕ) (id : String) (db : Db Json) (outcome : Outcome) (db' : Db Json)
      → All (λ d. holds_on (uuid db.fresh) id d ≡ false) db.deployments
      → reconcile_deployment env now id db ≡ some (outcome, db')
      → All (λ d. holds_on (uuid db.fresh) id d ≡ false) db'.deployments
  unfolding reconcile_deployment
  reconcile_deployment_released now id db outcome db' before e =
      elim (Bool-cases (any (can_lease env now id) db.deployments)) [
        | inl t ↦ finally_released (uuid db.fresh) id _ outcome db' (rw t at e)
        | inr f ↦
            let same : record db { fresh = suc db.fresh } ≡ db' =
              ap (λ (p : Outcome × Db Json). p.1) (some-injective _ _ (rw f at e)) in
            subst (λ (d : Db Json). All (λ d. holds_on (uuid db.fresh) id d ≡ false) d.deployments)
              same before
      ]
