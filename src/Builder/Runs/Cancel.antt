-- ===== src/Builder/Runs/Cancel.antt =====
-- A run whose cancellation was asked for.
use devion.Prelude.{
  ℕ, ◌≡◌, refl, inl, inr, String, Bool, true, false, List, [], ◌∷◌, ◌===◌, ◌&&◌, ◌||◌, All,
  All-append, All-of_mem, not, any, find, arith, Bool-cases, Option-cases, ===_iff, any-witness,
  any-of_mem, any-mem, mem-append_left, filter, ap, ◌∙◌,
}
use devion.Control.Store.{update_where}
use devion.Control.Store.Rows.{
  AllApart-mem, mem-of_update_where, mem-update_where, All-update_where,
}
use devion.Builder.Runs.{
  RunStatus, succeeded, failed, BuildRun, CreateRunInput, create, claim, heartbeat, mark_pushing,
  recover_expired_leases, complete, fail, request_cancel, update_metadata, is_live, has_key, has_id,
  is_claimable, oldest, claimed, recovered, cancel,
}
use devion.Builder.Runs.Steps.{
  Statement, creates, claims, beats, pushes, recovers, completes, fails, cancels, describes,
  execute, execute_all,
}
use devion.Builder.Runs.Sound.{IsTable, same_id, same_id_comm}

abbrev pub is_decided : RunStatus → Bool
is_decided succeeded = true
is_decided failed = true
is_decided _ = false

module _ {J : Type 0} where
  -- Rows of an identity whose cancellation was asked for and that are not decided otherwise.
  abbrev pub is_stopping : String → BuildRun J → Bool
  is_stopping id r = not (r.id === id) || (r.cancel_requested && not (is_decided r.status))

  abbrev pub IsStopping : String → List (BuildRun J) → Type 0
  IsStopping id rows = (any (has_id id) rows ≡ true) × All (λ r. is_stopping id r ≡ true) rows

  update-IsStopping :
      (id : String) (test : BuildRun J → Bool) (write : BuildRun J → BuildRun J)
      (rows : List (BuildRun J))
      → ((r : BuildRun J) → (write r).id ≡ r.id)
      → ((r : BuildRun J) → is_stopping id r ≡ true → is_stopping id (write r) ≡ true)
      → IsStopping id rows
      → IsStopping id (update_where test write rows)
  update-IsStopping id test write rows key keeps (here, all) = (
    let (r, m, y) = any-witness _ rows here in
        any-of_mem _ _ _ (mem-of_update_where test write r rows m) (elim (Bool-cases (test r)) [
          | inl e ↦ rw e (ap (λ i. i === id) (key r) ∙ y)
          | inr e ↦ rw e y
        ]),
    All-update_where _ test write rows (λ r m t. keeps r) all,
  )

  create-IsStopping :
      (m : J) (i : String) (now : ℕ) (input : CreateRunInput J) (id : String)
      (rows : List (BuildRun J))
      → IsStopping id rows
      → IsStopping id (create m i now input rows).1
  unfolding create
  create-IsStopping m i now input id rows (here, all) =
      elim (Option-cases (find (has_key input.idempotency_key) rows)) [
        | inr (r, e) ↦ rw (e, create) (here, all)
        | inl e ↦
            rw (e, create)
              (elim (Bool-cases (any (has_id i) rows)) [
                | inl t ↦ rw t (here, all)
                | inr f ↦
                    let (r, k, y) = any-witness _ rows here in
                    let d : has_id i r ≡ false = elim (Bool-cases (has_id i r)) [
                      | inl t ↦ absurd (any-mem _ r rows f k t)
                      | inr n ↦ n
                    ] in
                    rw f (
                      any-of_mem _ r _ (mem-append_left r rows _ k) y,
                      All-append _ rows _ all
                          (ground (arith, ===_iff r.id id, ===_iff i id, ===_iff r.id i), tt),
                    )
              ])
      ]

  claim-IsStopping :
      (locked : String → Bool) (now : ℕ) (w : String) (seconds : ℕ) (id : String)
      (rows : List (BuildRun J))
      → IsStopping id rows
      → IsStopping id (claim locked now w seconds rows).1
  unfolding claim
  claim-IsStopping locked now w seconds id rows h =
      elim (Option-cases (oldest (filter (is_claimable locked) rows))) [
        | inl e ↦ rw (e, claim) h
        | inr (r, e) ↦
            rw (e, claim)
              (update-IsStopping id (has_id r.id) (claimed now w seconds) rows (λ x. refl)
                (λ x g. ground arith) h)
      ]

  execute-IsStopping :
      (id : String) (s : Statement J) (rows : List (BuildRun J))
      → IsStopping id rows
      → IsStopping id (execute s rows)
  unfolding execute heartbeat mark_pushing recover_expired_leases complete fail request_cancel
      update_metadata
  execute-IsStopping id (creates m i now input) rows = create-IsStopping m i now input id rows
  execute-IsStopping id (claims locked now w seconds) rows =
      claim-IsStopping locked now w seconds id rows
  execute-IsStopping id (beats _ _ _ _) rows = update-IsStopping id _ _ rows (λ x. refl) (λ x g. g)
  execute-IsStopping id (pushes _ _) rows =
      update-IsStopping id _ _ rows (λ x. refl) (λ x g. ground arith)
  execute-IsStopping id (recovers _) rows =
      update-IsStopping id _ recovered rows (λ x. refl) (λ x g. ground arith)
  execute-IsStopping id (completes now i w) rows =
      update-IsStopping id _ _ rows (λ x. refl) (λ x g. ground arith)
  execute-IsStopping id (fails now i w error) rows =
      update-IsStopping id _ _ rows (λ x. refl) (λ x g. ground arith)
  execute-IsStopping id (cancels _ _) rows =
      update-IsStopping id _ _ rows (λ x. refl) (λ x g. ground arith)
  execute-IsStopping id (describes _ _) rows = update-IsStopping id _ _ rows (λ x. refl) (λ x g. g)

  execute_all-IsStopping :
      (id : String) (ss : List (Statement J)) (rows : List (BuildRun J))
      → IsStopping id rows
      → IsStopping id (execute_all ss rows)
  unfolding execute_all
  execute_all-IsStopping id [] rows h = h
  execute_all-IsStopping id (s ∷ ss) rows h =
      execute_all-IsStopping id ss _ (execute-IsStopping id s rows h)

  request-IsStopping :
      (now : ℕ) (id : String) (rows : List (BuildRun J))
      → IsTable rows
      → (request_cancel now id rows).0 ≡ true
      → IsStopping id (request_cancel now id rows).1
  unfolding request_cancel
  request-IsStopping now id rows (apart, sound) h =
      let (r, m, y) = any-witness _ rows h in
      (
        any-of_mem _ _ _ (mem-of_update_where _ (cancel now) r rows m) (rw y (ground arith)),
        All-of_mem _ _ (λ x n. elim (mem-update_where _ (cancel now) x rows n) [
          | inl (k, f) ↦ elim (Bool-cases (x.id === id)) [
            | inl t ↦
                let q : x ≡ r =
                  AllApart-mem same_id same_id_comm rows x r apart k m
                    (ground (arith, ===_iff x.id id, ===_iff r.id id, ===_iff x.id r.id)) in
                ground (arith, ap (λ z. is_live z.status) q)
            | inr t ↦ rw t refl
          ]
          | inr (z, k, t, e) ↦ rw e (ground arith)
        ]),
      )

  -- A request to cancel that is accepted is final: after any statements whatever, the run is still
  -- there, its cancellation is asked for, and it has neither succeeded nor failed.
  pub request_cancel_final :
      (now : ℕ) (id : String) (rows : List (BuildRun J)) (ss : List (Statement J))
      → IsTable rows
      → (request_cancel now id rows).0 ≡ true
      → IsStopping id (execute_all ss (request_cancel now id rows).1)
  request_cancel_final now id rows ss g h =
      execute_all-IsStopping id ss _ (request-IsStopping now id rows g h)
