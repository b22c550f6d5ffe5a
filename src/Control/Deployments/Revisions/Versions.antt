-- ===== src/Control/Deployments/Revisions/Versions.antt =====
-- Versions: no two revisions of an application have one, and a new one is above the others.
use devion.Prelude.{
  ℕ, ◌+◌, ◌<◌, String, ◌≡◌, refl, sym, ap, ◌∙◌, ◌⊎◌, inl, inr, Bool, true, Option, none, some, List,
  [], ◌∷◌, ◌++◌, ◌===◌, ===_iff, find, All, ◌∈◌, Bool-cases, &&-eq_true,
}
use mathlib.Core.Option.{some-injective}
use devion.Control.Store.{Deployment, Db, find_deployment}
use devion.Control.Env.{Env}
use devion.Control.Deployments.Revisions.{
  Input, Created, created, same_build, is_given, has_build, latest_version, revision, copied,
  create_deployment, create_rollback_deployment,
}

module _ (env : Env) where
  open env use {Json, uuid}

  find_sound :
      (p : Deployment Json → Bool) (ds : List (Deployment Json)) (d : Deployment Json)
      → find p ds ≡ some d
      → (d ∈ ds) × (p d ≡ true)
  find_sound p [] d h = cc
  find_sound p (e ∷ ds) d h = elim (Bool-cases (p e)) [
    | inl t ↦ let q : e ≡ d = some-injective _ _ (rw t at h) in (inl (sym q), ap p (sym q) ∙ t)
    | inr f ↦ let (m, t) = find_sound p ds d (rw f at h) in (inr m, t)
  ]

  -- The databases that the commits of other transactions make of one.
  pub data Reached (other : ℕ → Db Json → Db Json) (db : Db Json) : Db Json → Type 0 where
    begun : Reached other db db
    commits : (n : ℕ) (x : Db Json) → Reached other db x → Reached other db (other n x)

  -- A revision of the build that is in a database which only others have changed, or one that the
  -- creation has added behind the rows of such a database, for the build and with a version above all
  -- that the application had.
  abbrev pub IsAnswer :
      (ℕ → Db Json → Db Json) → Input Json → Db Json → Deployment Json → Db Json → Type 0
  IsAnswer other input db d db' =
      (Reached other db db' × (d ∈ db'.deployments) × (same_build d.build_id input.build_id ≡ true))
      ⊎ ((x : Db Json) × Reached other db x
          × (db'.deployments ≡ x.deployments ++ d ∷ [])
          × (d.application_id ≡ input.application_id)
          × (d.build_id ≡ input.build_id)
          × All (λ e. (e.application_id === input.application_id) ≡ true → e.version < d.version)
              db.deployments)

  abbrev pub Answers : (ℕ → Db Json → Db Json) → Input Json → Db Json → Created Json → Type 0
  Answers other input db answer =
      (d : Deployment Json) × (db' : Db Json) × (answer ≡ created d db')
      × IsAnswer other input db d db'

  Keeps : (ℕ → Db Json → Db Json) → Type 0
  Keeps other =
      (n : ℕ) (db : Db Json) (d : Deployment Json)
      → d ∈ db.deployments
      → d ∈ (other n db).deployments

  next_revision : ℕ → Input Json → Db Json → Deployment Json
  next_revision now input db =
      revision (uuid db.fresh) (latest_version input.application_id db.deployments + 1) input now

  find_of_mem :
      (p : Deployment Json → Bool) (ds : List (Deployment Json)) (d : Deployment Json)
      → d ∈ ds
      → p d ≡ true
      → (e : Deployment Json) × (find p ds ≡ some e) × (p e ≡ true)
  find_of_mem p [] d m h = absurd m
  find_of_mem p (e ∷ ds) d (inl q) h = let t : p e ≡ true = ap p (sym q) ∙ h in (e, rw t refl, t)
  find_of_mem p (e ∷ ds) d (inr m) h = elim (Bool-cases (p e)) [
    | inl t ↦ (e, rw t refl, t)
    | inr f ↦ let (x, k, t) = find_of_mem p ds d m h in (x, rw f k, t)
  ]

  -- A rollback to a revision that came from a build creates none: it answers with a revision of that
  -- build that is there, and changes no table.
  pub create_rollback_deployment_reuses :
      (now : ℕ) (other : ℕ → Db Json → Db Json) (source_id actor_id : String)
      (source : Deployment Json) (snapshot : Json) (db : Db Json)
      → find_deployment source_id db ≡ some source
      → is_given source.build_id ≡ true
      → source.configuration_snapshot ≡ some snapshot
      → (d : Deployment Json) × (create_rollback_deployment env now other source_id actor_id db
          ≡ copied (created d db))
        × (d ∈ db.deployments)
        × (same_build d.build_id source.build_id ≡ true)
  unfolding create_rollback_deployment create_deployment
  create_rollback_deployment_reuses now other source_id actor_id source snapshot db f g c =
      let itself : same_build source.build_id source.build_id ≡ true =
        same_build_refl source.build_id g in
      let (d, e, t) =
        find_of_mem (has_build source.build_id) db.deployments source
          (find_sound _ db.deployments source f).0 (rw (g, itself) refl) in
      (
        d,
        rw (f, create_rollback_deployment) (rw c (rw (e, create_deployment) refl)),
        (find_sound _ db.deployments d e).0,
        (&&-eq_true _ _ t).1,
      )
    where
      same_build_refl : (b : Option String) → is_given b ≡ true → same_build b b ≡ true
      same_build_refl none h = cc
      same_build_refl (some b) h = (===_iff b b).1 refl
