-- ===== src/Control/Deployments/Revisions/Latest.antt =====
-- The latest version of an application, and the rows that a revision above it does not collide with:
-- `createDeployment` of apps/api/src/modules/deployments/service.ts.
use devion.Prelude.{
  ℕ, ◌≤◌, ◌<◌, String, ◌≡◌, refl, ◌⊎◌, inl, inr, true, false, Option, none, some, List, [], ◌∷◌,
  ◌===◌, ===_iff, find, any, All, arith,
}
use devion.Control.Store.{Deployment}
use devion.Control.Deployments.Revisions.{same_build, is_given, has_build, latest_version, collides}

same_build_comm : (a b : Option String) → same_build a b ≡ same_build b a
same_build_comm none none = refl
same_build_comm none (some _) = refl
same_build_comm (some _) none = refl
same_build_comm (some a) (some b) = ground (arith, ===_iff a b, ===_iff b a)

module _ {J : Type 0} where
  collides_comm : (d e : Deployment J) → collides d e ≡ collides e d
  collides_comm d e = ground (
    arith,
    ===_iff d.application_id e.application_id,
    ===_iff e.application_id d.application_id,
    same_build_comm d.build_id e.build_id,
  )

  -- No version of the application is above the latest.
  pub latest_version_bound :
      (application_id : String) (ds : List (Deployment J))
      → All
          (λ d.
            (d.application_id === application_id) ≡ true
            → d.version ≤ latest_version application_id ds)
          ds
  unfolding latest_version
  latest_version_bound application_id ds = go ds
    where
      weaken :
          (m n : ℕ) (es : List (Deployment J))
          → m ≤ n
          → All (λ d. (d.application_id === application_id) ≡ true → d.version ≤ m) es
          → All (λ d. (d.application_id === application_id) ≡ true → d.version ≤ n) es
      weaken m n [] h k = tt
      weaken m n (e ∷ es) h (k, ks) = (λ t. let q = k t in omega arith, weaken m n es h ks)

      go :
          (es : List (Deployment J))
          → All
              (λ d.
                (d.application_id === application_id) ≡ true
                → d.version ≤ latest_version application_id es)
              es
      go [] = tt
      go (e ∷ es) =
          (λ t. ground arith, weaken (latest_version application_id es) _ es (ground arith) (go es))

  pub free_of_bound :
      (r : Deployment J) (ds : List (Deployment J))
      → All (λ d. (d.application_id === r.application_id) ≡ true → d.version < r.version) ds
      → any (λ (d : Deployment J). same_build r.build_id d.build_id) ds ≡ false
      → any (collides r) ds ≡ false
  free_of_bound r [] h k = refl
  free_of_bound r (d ∷ ds) (h, hs) k = ground (
    arith,
    h,
    ===_iff r.application_id d.application_id,
    ===_iff d.application_id r.application_id,
    free_of_bound r ds hs,
  )

  pub no_build :
      (build_id : Option String) (ds : List (Deployment J))
      → (build_id ≡ none) ⊎ (is_given build_id ≡ true)
      → find (has_build build_id) ds ≡ none
      → any (λ (d : Deployment J). same_build build_id d.build_id) ds ≡ false
  no_build build_id [] g h = refl
  no_build none (d ∷ ds) g h = no_build none ds g (find_none ds)
    where
      find_none : (es : List (Deployment J)) → find (has_build none) es ≡ none
      find_none [] = refl
      find_none (e ∷ es) = find_none es
  no_build (some b) (d ∷ ds) (inl e) h = cc
  no_build (some b) (d ∷ ds) (inr g) h =
      ground (arith, same_build_comm (some b) d.build_id, no_build (some b) ds (inr g))
