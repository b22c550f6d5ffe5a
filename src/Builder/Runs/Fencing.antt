-- ===== src/Builder/Runs/Fencing.antt =====
-- A worker that lost its lease is fenced off from the run.
use devion.Prelude.{
  ℕ, ◌≡◌, refl, inl, inr, String, Bool, false, List, [], ◌∷◌, ◌===◌, ◌&&◌, not, any, arith,
  Option-cases, any-append, filter, ap₂,
}
use devion.Control.Store.{update_where}
use devion.Control.Store.Rows.{update_where-none}
use devion.Builder.Runs.{
  BuildRun, CreateRunInput, create, claim, heartbeat, mark_pushing, recover_expired_leases,
  complete, fail, request_cancel, update_metadata, is_workers, is_held, is_expired, has_id, new_run,
  is_claimable, oldest, recovered, is_running, claimed,
}
use devion.Builder.Runs.Steps.{
  Statement, creates, claims, beats, pushes, recovers, completes, fails, cancels, describes,
  execute, execute_all,
}

module _ {J : Type 0} where
  abbrev pub claims_for : String → Statement J → Bool
  claims_for worker (claims _ _ w _) = w === worker
  claims_for worker _ = false

  -- A row that no update gives to the worker is not given to it by a statement.
  any-update_where_none :
      (p test : BuildRun J → Bool) (write : BuildRun J → BuildRun J) (rows : List (BuildRun J))
      → ((r : BuildRun J) → p r ≡ false → p (write r) ≡ false)
      → any p rows ≡ false
      → any p (update_where test write rows) ≡ false
  any-update_where_none p test write [] keeps h = refl
  any-update_where_none p test write (r ∷ rows) keeps h =
      ground (arith, keeps r, any-update_where_none p test write rows keeps)

  create-none :
      (m : J) (i : String) (now : ℕ) (input : CreateRunInput J) (id worker : String)
      (rows : List (BuildRun J))
      → any (is_workers id worker) rows ≡ false
      → any (is_workers id worker) (create m i now input rows).1 ≡ false
  unfolding create
  create-none m i now input id worker rows h =
      ground (arith, any-append (is_workers id worker) rows (new_run m i now input ∷ []))

  claim-none :
      (locked : String → Bool) (now : ℕ) (w : String) (seconds : ℕ) (id worker : String)
      (rows : List (BuildRun J))
      → (w === worker) ≡ false
      → any (is_workers id worker) rows ≡ false
      → any (is_workers id worker) (claim locked now w seconds rows).1 ≡ false
  unfolding claim
  claim-none locked now w seconds id worker rows d h =
      elim (Option-cases (oldest (filter (is_claimable locked) rows))) [
        | inl e ↦ rw (e, claim) h
        | inr (r, e) ↦
            rw (e, claim)
              (any-update_where_none _ (has_id r.id) (claimed now w seconds) rows
                (λ x g. ground arith) h)
      ]

  execute-none :
      (id worker : String) (s : Statement J) (rows : List (BuildRun J))
      → claims_for worker s ≡ false
      → any (is_workers id worker) rows ≡ false
      → any (is_workers id worker) (execute s rows) ≡ false
  unfolding execute heartbeat mark_pushing recover_expired_leases complete fail request_cancel
      update_metadata
  execute-none id worker (creates m i now input) rows c = create-none m i now input id worker rows
  execute-none id worker (claims locked now w seconds) rows c =
      claim-none locked now w seconds id worker rows c
  execute-none id worker (beats _ _ _ _) rows c = any-update_where_none _ _ _ rows (λ r h. h)
  execute-none id worker (pushes _ _) rows c = any-update_where_none _ _ _ rows (λ r h. h)
  execute-none id worker (recovers _) rows c =
      any-update_where_none _ _ recovered rows (λ r h. ground arith)
  execute-none id worker (completes _ _ _) rows c = any-update_where_none _ _ _ rows (λ r h. h)
  execute-none id worker (fails _ _ _ _) rows c = any-update_where_none _ _ _ rows (λ r h. h)
  execute-none id worker (cancels _ _) rows c = any-update_where_none _ _ _ rows (λ r h. h)
  execute-none id worker (describes _ _) rows c = any-update_where_none _ _ _ rows (λ r h. h)

  execute_all-none :
      (id worker : String) (ss : List (Statement J)) (rows : List (BuildRun J))
      → any (claims_for worker) ss ≡ false
      → any (is_workers id worker) rows ≡ false
      → any (is_workers id worker) (execute_all ss rows) ≡ false
  unfolding execute_all
  execute_all-none id worker [] rows c h = h
  execute_all-none id worker (s ∷ ss) rows c h =
      execute_all-none id worker ss _ (ground arith)
        (execute-none id worker s rows (ground arith) h)

  recover-none :
      (now : ℕ) (id worker : String) (rows : List (BuildRun J))
      → any (λ r. is_workers id worker r && not (is_expired now r)) rows ≡ false
      → any (is_workers id worker) (recover_expired_leases now rows) ≡ false
  unfolding recover_expired_leases
  recover-none now id worker [] h = refl
  recover-none now id worker (r ∷ rows) h = ground (arith, recover-none now id worker rows)

  any_both :
      (p q : BuildRun J → Bool) (rows : List (BuildRun J))
      → any p rows ≡ false
      → any (λ r. p r && q r) rows ≡ false
  any_both p q [] h = refl
  any_both p q (r ∷ rows) h = ground (arith, any_both p q rows)

  fenced-of_none :
      (id worker : String) (rows : List (BuildRun J))
      → any (is_workers id worker) rows ≡ false
      → (later seconds : ℕ) (error : List ℕ)
      → (heartbeat later id worker seconds rows ≡ (false, rows))
        × (mark_pushing id worker rows ≡ (false, rows))
        × (complete later id worker rows ≡ rows)
        × (fail later id worker error rows ≡ rows)
  unfolding heartbeat mark_pushing complete fail
  fenced-of_none id worker rows h later seconds error =
      let held : any (λ r. is_workers id worker r && is_held r.status) rows ≡ false =
        any_both _ _ rows h in
      let run : any (λ r. is_workers id worker r && is_running r.status) rows ≡ false =
        any_both _ _ rows h in
      (
        ap₂ (λ b t. (b, t)) held (update_where-none _ _ rows held),
        ap₂ (λ b t. (b, t)) run (update_where-none _ _ rows run),
        update_where-none _ _ rows h,
        update_where-none _ _ rows h,
      )

  -- Where a worker's leases on a run are all past, the recovery of expired leases takes the run from
  -- it: after that, and after any statements among which the worker claims nothing, it can neither
  -- extend the lease nor push, and its completion or failure changes nothing.
  pub recovered_fenced :
      (now : ℕ) (id worker : String) (rows : List (BuildRun J)) (ss : List (Statement J))
      → any (λ r. is_workers id worker r && not (is_expired now r)) rows ≡ false
      → any (claims_for worker) ss ≡ false
      → (later seconds : ℕ) (error : List ℕ)
      → let rows' : List (BuildRun J) = execute_all ss (recover_expired_leases now rows) in
        (heartbeat later id worker seconds rows' ≡ (false, rows'))
        × (mark_pushing id worker rows' ≡ (false, rows'))
        × (complete later id worker rows' ≡ rows')
        × (fail later id worker error rows' ≡ rows')
  recovered_fenced now id worker rows ss past c later seconds error =
      fenced-of_none id worker _
        (execute_all-none id worker ss _ c (recover-none now id worker rows past)) later seconds
        error
