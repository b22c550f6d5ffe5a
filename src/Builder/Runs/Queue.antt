-- ===== src/Builder/Runs/Queue.antt =====
-- Which run a worker claims.
use mathlib.Core.Option.{some-injective}
use devion.Prelude.{
  ℕ, ◌+◌, ◌*◌, ◌≤◌, ◌≡◌, refl, ◌⊎◌, inl, inr, String, Bool, true, false, none, some, List, [], ◌∷◌,
  ◌∈◌, All, All-weaken, any, ltb, arith, Bool-cases, Option-cases, if◌then◌else◌, ===_iff, filter,
  mem-filter, subst, sym,
}
use devion.Control.Store.{update_where}
use devion.Control.Store.Rows.{mem-of_update_where}
use devion.Builder.Runs.{BuildRun, claim, running, has_id, is_claimable, oldest, claimed, older}
use devion.Builder.Runs.Sound.{mem-oldest}

module _ {J : Type 0} where
  older-le :
      (s : BuildRun J) (rows : List (BuildRun J))
      → All (λ x. (older s (oldest rows)).created_at ≤ x.created_at) (s ∷ rows)
  older-le s [] = (omega arith, tt)
  older-le s (t ∷ rows) =
      let o : BuildRun J = older t (oldest rows) in
      let h : All (λ x. o.created_at ≤ x.created_at) (t ∷ rows) = older-le t rows in
      elim (Bool-cases (ltb o.created_at s.created_at)) [
        | inl e ↦
            subst (λ b. All (λ x. (if b then o else s).created_at ≤ x.created_at) (s ∷ t ∷ rows))
              (sym e) (ground arith, h)
        | inr e ↦
            subst (λ b. All (λ x. (if b then o else s).created_at ≤ x.created_at) (s ∷ t ∷ rows))
              (sym e) (omega arith, All-weaken _ _ (t ∷ rows) (λ x k. ground arith) h)
      ]

  oldest-le :
      (rows : List (BuildRun J)) (r : BuildRun J)
      → oldest rows ≡ some r
      → All (λ x. r.created_at ≤ x.created_at) rows
  oldest-le [] r e = tt
  oldest-le (s ∷ rows) r e =
      subst (λ z. All (λ x. z.created_at ≤ x.created_at) (s ∷ rows)) (some-injective _ _ e)
        (older-le s rows)

  none-claimable :
      (p : BuildRun J → Bool) (rows : List (BuildRun J))
      → oldest (filter p rows) ≡ none
      → any p rows ≡ false
  none-claimable p [] e = refl
  none-claimable p (r ∷ rows) e = elim (Bool-cases (p r)) [
    | inl t ↦ absurd (cc (rw t at e))
    | inr f ↦ rw f (none-claimable p rows (rw f at e))
  ]

  -- What a run is once a worker has claimed it.
  pub record IsClaimOf (now : ℕ) (worker : String) (seconds : ℕ) (r c : BuildRun J) : Type 0 where
    pub is_same : c.id ≡ r.id
    pub is_running : c.status ≡ running
    pub holder : c.worker_id ≡ some worker
    pub attempt : c.attempt ≡ r.attempt + 1
    pub started : c.started_at ≡ some now
    pub lease : c.lease_expires_at ≡ some (now + seconds * 1000)

  -- A claim gives nothing, and changes nothing, exactly where no queued run is free of other
  -- transactions. Otherwise it takes one of those runs, none of which was created earlier: the run
  -- is running with the worker as its holder, its attempt is counted, and its lease lasts the given
  -- seconds from now.
  pub claim_oldest :
      (locked : String → Bool) (now : ℕ) (worker : String) (seconds : ℕ) (rows : List (BuildRun J))
      → ((any (is_claimable locked) rows ≡ false)
          × (claim locked now worker seconds rows ≡ (none, rows)))
        ⊎ ((r : BuildRun J) × (r ∈ rows)
            × (is_claimable locked r ≡ true)
            × All (λ x. r.created_at ≤ x.created_at) (filter (is_claimable locked) rows)
            × ((c : BuildRun J) × ((claim locked now worker seconds rows).0 ≡ some c)
                × (c ∈ (claim locked now worker seconds rows).1)
                × IsClaimOf now worker seconds r c))
  unfolding claim
  claim_oldest locked now worker seconds rows =
      elim (Option-cases (oldest (filter (is_claimable locked) rows))) [
        | inl e ↦ inl (none-claimable _ rows e, rw (e, claim) refl)
        | inr (r, e) ↦
            let (m, c) = (mem-filter _ r rows).0 (mem-oldest _ r e) in
            inr (
              r,
              m,
              c,
              oldest-le _ r e,
              (
                claimed now worker seconds r,
                rw (e, claim) refl,
                rw (e, claim)
                    (subst
                      (λ b.
                        (if b then claimed now worker seconds r else r)
                        ∈ update_where (has_id r.id) (claimed now worker seconds) rows)
                      ((===_iff r.id r.id).1 refl)
                      (mem-of_update_where (has_id r.id) (claimed now worker seconds) r rows m)),
                record {
                  is_same = refl;
                  is_running = refl;
                  holder = refl;
                  attempt = refl;
                  started = refl;
                  lease = refl;
                },
              ),
            )
      ]
