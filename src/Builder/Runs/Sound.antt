-- ===== src/Builder/Runs/Sound.antt =====
-- The columns of a run agree with its status.
use devion.Prelude.{
  ℕ, ◌≡◌, refl, ◌⊎◌, inl, inr, String, Bool, true, false, none, some, List, [], ◌∷◌, ◌===◌, ◌∈◌,
  All, any_ext, subst, ◌∙◌, All-append, is_some, filter, mem-filter, Option-cases, arith,
  Bool-cases, ===_iff, sym, ltb, any, find,
}
use mathlib.Core.Option.{some-injective}
use devion.Control.Store.{update_where}
use devion.Control.Store.Rows.{
  AllApart, AllApart-append, AllApart-update_where, AllApart-mem, All-update_where,
}
use devion.Builder.Runs.{
  RunStatus, queued, running, pushing, succeeded, failed, cancelled, BuildRun, CreateRunInput,
  create, claim, heartbeat, mark_pushing, recover_expired_leases, complete, fail, request_cancel,
  update_metadata, new_run, has_key, oldest, is_claimable, has_id,
}
use devion.Builder.Runs.Steps.{
  Statement, creates, claims, beats, pushes, recovers, completes, fails, cancels, describes,
  execute, execute_all,
}

module _ {J : Type 0} where
  -- What a status says of the other columns: a run that waits belongs to nobody, a run in work has a
  -- worker and a lease, and a run that a worker ended has no lease and no secrets left.
  abbrev pub IsStage : RunStatus → BuildRun J → Type 0
  IsStage queued r = (r.worker_id ≡ none) × (r.lease_expires_at ≡ none) × (r.finished_at ≡ none)
  IsStage running r =
      (is_some r.worker_id ≡ true) × (is_some r.lease_expires_at ≡ true) × (r.finished_at ≡ none)
  IsStage pushing r =
      (is_some r.worker_id ≡ true) × (is_some r.lease_expires_at ≡ true) × (r.finished_at ≡ none)
  IsStage succeeded r =
      (r.lease_expires_at ≡ none)
      × (is_some r.finished_at ≡ true)
      × (r.secrets ≡ [])
      × (r.cancel_requested ≡ false)
      × (is_some r.worker_id ≡ true)
  IsStage failed r =
      (r.lease_expires_at ≡ none)
      × (is_some r.finished_at ≡ true)
      × (r.secrets ≡ [])
      × (r.cancel_requested ≡ false)
      × (is_some r.worker_id ≡ true)
  IsStage cancelled r =
      (r.lease_expires_at ≡ none)
      × (is_some r.finished_at ≡ true)
      × (r.cancel_requested ≡ true)
      × ((r.worker_id ≡ none) ⊎ (r.secrets ≡ []))

  abbrev pub IsSound : BuildRun J → Type 0
  IsSound r = IsStage r.status r

  -- The primary key.
  abbrev pub same_id : BuildRun J → BuildRun J → Bool
  same_id r s = r.id === s.id

  abbrev pub IsTable : List (BuildRun J) → Type 0
  IsTable rows = AllApart same_id rows × All IsSound rows

  pub same_id_comm : (r s : BuildRun J) → same_id r s ≡ same_id s r
  same_id_comm r s = ground (arith, ===_iff r.id s.id, ===_iff s.id r.id)

  -- An update that keeps the primary key and the soundness of what it meets.
  update_where-IsTable :
      (test : BuildRun J → Bool) (write : BuildRun J → BuildRun J) (rows : List (BuildRun J))
      → ((r : BuildRun J) → (write r).id ≡ r.id)
      → ((r : BuildRun J) → r ∈ rows → test r ≡ true → IsSound r → IsSound (write r))
      → IsTable rows
      → IsTable (update_where test write rows)
  update_where-IsTable test write rows key keeps (apart, sound) = (
    AllApart-update_where same_id test write (λ r s. rw (key r) refl) (λ r s. rw (key s) refl) rows
        apart,
    All-update_where IsSound test write rows keeps sound,
  )

  pub mem-oldest : (rows : List (BuildRun J)) (r : BuildRun J) → oldest rows ≡ some r → r ∈ rows
  mem-oldest [] r e = absurd cc
  mem-oldest (s ∷ rows) r e = elim (Option-cases (oldest rows)) [
    | inl n ↦ inl (some-injective _ _ (sym (rw n at e)))
    | inr (t, m) ↦ elim (Bool-cases (ltb t.created_at s.created_at)) [
      | inl y ↦
          inr (subst (λ z. z ∈ rows) (some-injective _ _ (rw (m, y) at e)) (mem-oldest rows t m))
      | inr y ↦ inl (some-injective _ _ (sym (rw (m, y) at e)))
    ]
  ]

  create-IsTable :
      (m : J) (id : String) (now : ℕ) (input : CreateRunInput J) (rows : List (BuildRun J))
      → IsTable rows
      → IsTable (create m id now input rows).1
  unfolding create
  create-IsTable m id now input rows (apart, sound) =
      elim (Option-cases (find (has_key input.idempotency_key) rows)) [
        | inr (r, e) ↦ rw (e, create) (apart, sound)
        | inl e ↦
            rw (e, create)
              (elim (Bool-cases (any (has_id id) rows)) [
                | inl t ↦ rw t (apart, sound)
                | inr f ↦ rw f (
                  AllApart-append same_id same_id_comm rows (new_run m id now input) apart
                      (any_ext rows (λ r. same_id_comm (new_run m id now input) r) ∙ f),
                  All-append IsSound rows _ sound ((refl, refl, refl), tt),
                )
              ])
      ]

  claim-IsTable :
      (locked : String → Bool) (now : ℕ) (worker : String) (seconds : ℕ) (rows : List (BuildRun J))
      → IsTable rows
      → IsTable (claim locked now worker seconds rows).1
  unfolding claim
  claim-IsTable locked now worker seconds rows (apart, sound) =
      elim (Option-cases (oldest (filter (is_claimable locked) rows))) [
        | inl e ↦ rw (e, claim) (apart, sound)
        | inr (r, e) ↦
            let (m, c) = (mem-filter _ r rows).0 (mem-oldest _ r e) in
            rw (e, claim)
              (update_where-IsTable _ _ rows (λ x. refl)
                (λ x n t s.
                  let q : x ≡ r = AllApart-mem same_id same_id_comm rows x r apart n m t in
                  let k : is_claimable locked x ≡ true = rw q c in ground arith)
                (apart, sound))
      ]

  -- Every statement keeps the table sound.
  pub execute-IsTable :
      (s : Statement J) (rows : List (BuildRun J)) → IsTable rows → IsTable (execute s rows)
  unfolding execute heartbeat mark_pushing recover_expired_leases complete fail request_cancel
      update_metadata
  execute-IsTable (creates m id now input) rows = create-IsTable m id now input rows
  execute-IsTable (claims locked now worker seconds) rows =
      claim-IsTable locked now worker seconds rows
  execute-IsTable (beats now id worker seconds) rows =
      update_where-IsTable _ _ rows (λ r. refl) (λ r m t. ground arith)
  execute-IsTable (pushes id worker) rows =
      update_where-IsTable _ _ rows (λ r. refl) (λ r m t. ground arith)
  execute-IsTable (recovers now) rows =
      update_where-IsTable _ _ rows (λ r. refl) (λ r m t. ground arith)
  execute-IsTable (completes now id worker) rows =
      update_where-IsTable _ _ rows (λ r. refl) (λ r m t. ground arith)
  execute-IsTable (fails now id worker error) rows =
      update_where-IsTable _ _ rows (λ r. refl) (λ r m t. ground arith)
  execute-IsTable (cancels now id) rows =
      update_where-IsTable _ _ rows (λ r. refl) (λ r m t. ground arith)
  execute-IsTable (describes id metadata) rows =
      update_where-IsTable _ _ rows (λ r. refl) (λ r m t. ground arith)

  -- In every table that statements make of an empty one, the primary key is unique and the columns
  -- of a run agree with its status: a run that waits belongs to nobody, a run in work has a worker
  -- and a lease and is not finished, and a run that a worker ended has an end, no lease and none of
  -- its secrets left.
  pub execute_all-IsTable :
      (ss : List (Statement J)) (rows : List (BuildRun J))
      → IsTable rows
      → IsTable (execute_all ss rows)
  unfolding execute_all
  execute_all-IsTable [] rows h = h
  execute_all-IsTable (s ∷ ss) rows h = execute_all-IsTable ss _ (execute-IsTable s rows h)
