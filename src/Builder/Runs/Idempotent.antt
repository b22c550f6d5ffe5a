-- ===== src/Builder/Runs/Idempotent.antt =====
-- A repeated creation of a run.
use mathlib.Core.Option.{some-injective}
use mathlib.Core.Option
use devion.Prelude.{
  ℕ, ◌≡◌, refl, inl, inr, String, Bool, false, some, List, [], ◌∷◌, any, find, Bool-cases,
  Option-cases, if◌then◌else◌, ===_iff, find-append, find-append_none, filter, subst, sym, ap, ◌∙◌,
}
use devion.Control.Store.{update_where}
use devion.Control.Refresh.Laws.{find-update_where}
use devion.Builder.Runs.{
  succeeded, BuildRun, CreateRunInput, create, claim, heartbeat, mark_pushing,
  recover_expired_leases, complete, fail, request_cancel, update_metadata, has_key, has_id,
  is_claimable, oldest, claimed, recovered, finish, cancel,
}
use devion.Builder.Runs.Steps.{
  Statement, creates, claims, beats, pushes, recovers, completes, fails, cancels, describes,
  execute, execute_all,
}
use devion.Builder.Runs.Sound.{same_id}

module _ {J : Type 0} where
  create-finds :
      (m : J) (i : String) (now : ℕ) (input : CreateRunInput J) (key : String) (r : BuildRun J)
      (rows : List (BuildRun J))
      → find (has_key key) rows ≡ some r
      → find (has_key key) (create m i now input rows).1 ≡ some r
  unfolding create
  create-finds m i now input key r rows h =
      elim (Option-cases (find (has_key input.idempotency_key) rows)) [
        | inr (q, e) ↦ rw (e, create) h
        | inl e ↦
            rw (e, create)
              (elim (Bool-cases (any (has_id i) rows)) [
                | inl t ↦ rw t h
                | inr f ↦ rw f (find-append _ rows _ r h)
              ])
      ]

  create-found :
      (m : J) (i : String) (now : ℕ) (input : CreateRunInput J) (r : BuildRun J) (b : Bool)
      (rows : List (BuildRun J))
      → (create m i now input rows).0 ≡ some (r, b)
      → find (has_key input.idempotency_key) (create m i now input rows).1 ≡ some r
  unfolding create
  create-found m i now input r b rows h =
      elim (Option-cases (find (has_key input.idempotency_key) rows)) [
        | inr (q, e) ↦
            rw (e, create) (e ∙ ap some (ap (λ z. z.0) (some-injective _ _ (rw (e, create) at h))))
        | inl e ↦ elim (Bool-cases (any (has_id i) rows)) [
          | inl t ↦ absurd (cc (rw (e, create, t) at h))
          | inr f ↦
              rw (e, create, f)
                (find-append_none _ rows _ e
                  ∙ rw ((===_iff input.idempotency_key input.idempotency_key).1 refl)
                      (ap some (ap (λ z. z.0) (some-injective _ _ (rw (e, create, f) at h)))))
        ]
      ]

  -- The run that a key finds, by its identity.
  abbrev pub IsFound : String → String → List (BuildRun J) → Type 0
  IsFound key id rows = (r : BuildRun J) × (find (has_key key) rows ≡ some r) × (r.id ≡ id)

  update-IsFound :
      (key id : String) (test : BuildRun J → Bool) (write : BuildRun J → BuildRun J)
      (rows : List (BuildRun J))
      → ((r : BuildRun J) → (write r).id ≡ r.id)
      → ((r : BuildRun J) → has_key key (write r) ≡ has_key key r)
      → IsFound key id rows
      → IsFound key id (update_where test write rows)
  update-IsFound key id test write rows same_id same_key (r, e, q) = (
    if test r then write r else r,
    find-update_where _ test write rows same_key
        ∙ ap (Option.map (λ x. if test x then write x else x)) e,
    elim (Bool-cases (test r)) [ inl t ↦ rw t (same_id r ∙ q) | inr t ↦ rw t q ],
  )

  claim-IsFound :
      (key id : String) (locked : String → Bool) (now : ℕ) (w : String) (seconds : ℕ)
      (rows : List (BuildRun J))
      → IsFound key id rows
      → IsFound key id (claim locked now w seconds rows).1
  unfolding claim
  claim-IsFound key id locked now w seconds rows h =
      elim (Option-cases (oldest (filter (is_claimable locked) rows))) [
        | inl e ↦ rw (e, claim) h
        | inr (r, e) ↦
            rw (e, claim)
              (update-IsFound key id (has_id r.id) (claimed now w seconds) rows (λ x. refl)
                (λ x. refl) h)
      ]

  execute-IsFound :
      (key id : String) (s : Statement J) (rows : List (BuildRun J))
      → IsFound key id rows
      → IsFound key id (execute s rows)
  unfolding execute heartbeat mark_pushing recover_expired_leases complete fail request_cancel
      update_metadata
  execute-IsFound key id (creates m i now input) rows =
      λ (r, e, q). (r, create-finds m i now input key r rows e, q)
  execute-IsFound key id (claims locked now w seconds) rows =
      claim-IsFound key id locked now w seconds rows
  execute-IsFound key id (beats _ _ _ _) rows =
      update-IsFound key id _ _ rows (λ r. refl) (λ r. refl)
  execute-IsFound key id (pushes _ _) rows = update-IsFound key id _ _ rows (λ r. refl) (λ r. refl)
  execute-IsFound key id (recovers _) rows =
      update-IsFound key id _ recovered rows (λ r. refl) (λ r. refl)
  execute-IsFound key id (completes now _ _) rows =
      update-IsFound key id _ (finish now succeeded) rows (λ r. refl) (λ r. refl)
  execute-IsFound key id (fails _ _ _ _) rows =
      update-IsFound key id _ _ rows (λ r. refl) (λ r. refl)
  execute-IsFound key id (cancels now _) rows =
      update-IsFound key id _ (cancel now) rows (λ r. refl) (λ r. refl)
  execute-IsFound key id (describes _ _) rows =
      update-IsFound key id _ _ rows (λ r. refl) (λ r. refl)

  execute_all-IsFound :
      (key id : String) (ss : List (Statement J)) (rows : List (BuildRun J))
      → IsFound key id rows
      → IsFound key id (execute_all ss rows)
  unfolding execute_all
  execute_all-IsFound key id [] rows h = h
  execute_all-IsFound key id (s ∷ ss) rows h =
      execute_all-IsFound key id ss _ (execute-IsFound key id s rows h)

  create-of_IsFound :
      (m : J) (i : String) (now : ℕ) (input : CreateRunInput J) (id : String)
      (rows : List (BuildRun J))
      → IsFound input.idempotency_key id rows
      → (r : BuildRun J) × (create m i now input rows ≡ (some (r, false), rows)) × (r.id ≡ id)
  unfolding create
  create-of_IsFound m i now input id rows (r, e, q) = (r, rw (e, create) refl, q)

  -- Creating a run again with the same idempotency key, after any statements, creates nothing: the
  -- answer is the run that the first creation answered with, by its identity, as one that was there,
  -- and the table stays as it is.
  pub create_idempotent :
      (m m' : J) (i i' : String) (now now' : ℕ) (input input' : CreateRunInput J) (r : BuildRun J)
      (b : Bool) (rows : List (BuildRun J)) (ss : List (Statement J))
      → (create m i now input rows).0 ≡ some (r, b)
      → input'.idempotency_key ≡ input.idempotency_key
      → let rows' : List (BuildRun J) = execute_all ss (create m i now input rows).1 in
        (s : BuildRun J) × (create m' i' now' input' rows' ≡ (some (s, false), rows'))
        × (s.id ≡ r.id)
  create_idempotent m m' i i' now now' input input' r b rows ss h k =
      create-of_IsFound m' i' now' input' r.id _ (
        execute_all-IsFound input'.idempotency_key r.id ss _ (
          subst (λ z. IsFound z r.id (create m i now input rows).1) (sym k)
            (r, create-found m i now input r b rows h, refl)))
