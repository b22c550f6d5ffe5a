-- ===== src/Builder/Runs/Lease.antt =====
-- A lease that lasts keeps a run with its worker.
use devion.Prelude.{
  ℕ, ◌+◌, ◌*◌, ◌≡◌, inl, inr, String, Bool, true, List, [], ◌∷◌, ◌===◌, ◌&&◌, ◌∈◌, not, any, leb,
  arith, Bool-cases, Option-cases, ===_iff, any-witness, any-of_mem, any-append, filter, mem-filter,
  all,
}
use devion.Control.Store.{update_where}
use devion.Control.Store.Rows.{AllApart-mem, mem-of_update_where}
use devion.Builder.Runs.{
  BuildRun, CreateRunInput, create, claim, heartbeat, mark_pushing, recover_expired_leases,
  complete, fail, request_cancel, update_metadata, is_workers, is_held, new_run, is_claimable,
  oldest, recovered, renewed, pushed, finish, succeeded, cancel, is_past,
}
use devion.Builder.Runs.Steps.{
  Statement, creates, claims, beats, pushes, recovers, completes, fails, cancels, describes,
  execute, execute_all,
}
use devion.Builder.Runs.Sound.{IsTable, execute-IsTable, same_id, same_id_comm, mem-oldest}

module _ {J : Type 0} where
  -- Rows of the run that the worker holds by a lease that lasts to `t` at least.
  abbrev pub holds : String → String → ℕ → BuildRun J → Bool
  holds id worker t r =
      is_workers id worker r && is_held r.status && not (is_past r.lease_expires_at t)

  -- A statement of the time up to `t`, and not the worker's own end of the run.
  abbrev pub is_before : String → String → ℕ → Statement J → Bool
  is_before id worker t (recovers now) = leb now t
  is_before id worker t (beats now i w seconds) = leb t (now + seconds * 1000)
  is_before id worker t (completes now i w) = not (i === id && w === worker)
  is_before id worker t (fails now i w error) = not (i === id && w === worker)
  is_before id worker t _ = true

  holds_kept :
      (id worker : String) (t : ℕ) (test : BuildRun J → Bool) (write : BuildRun J → BuildRun J)
      (rows : List (BuildRun J))
      → ((r : BuildRun J)
          → r ∈ rows
          → holds id worker t r ≡ true
          → test r ≡ true
          → holds id worker t (write r) ≡ true)
      → any (holds id worker t) rows ≡ true
      → any (holds id worker t) (update_where test write rows) ≡ true
  holds_kept id worker t test write rows keeps h =
      let (r, m, y) = any-witness _ rows h in
      any-of_mem _ _ _ (mem-of_update_where test write r rows m)
        (elim (Bool-cases (test r)) [ inl e ↦ rw e (keeps r m y e) | inr e ↦ rw e y ])

  create-holds :
      (m : J) (i : String) (now : ℕ) (input : CreateRunInput J) (id worker : String) (t : ℕ)
      (rows : List (BuildRun J))
      → any (holds id worker t) rows ≡ true
      → any (holds id worker t) (create m i now input rows).1 ≡ true
  unfolding create
  create-holds m i now input id worker t rows h =
      ground (arith, any-append (holds id worker t) rows (new_run m i now input ∷ []))

  claim-holds :
      (locked : String → Bool) (now : ℕ) (w : String) (seconds : ℕ) (id worker : String) (t : ℕ)
      (rows : List (BuildRun J))
      → IsTable rows
      → any (holds id worker t) rows ≡ true
      → any (holds id worker t) (claim locked now w seconds rows).1 ≡ true
  unfolding claim
  claim-holds locked now w seconds id worker t rows (apart, sound) h =
      elim (Option-cases (oldest (filter (is_claimable locked) rows))) [
        | inl e ↦ rw (e, claim) h
        | inr (r, e) ↦
            let (m, c) = (mem-filter _ r rows).0 (mem-oldest _ r e) in
            rw (e, claim)
              (holds_kept id worker t _ _ rows
                (λ x n y s.
                  let q : x ≡ r = AllApart-mem same_id same_id_comm rows x r apart n m s in
                  let k : is_claimable locked x ≡ true = rw q c in ground arith)
                h)
      ]

  -- A row has one worker.
  one_worker :
      (id worker i w : String) (r : BuildRun J)
      → is_workers id worker r ≡ true
      → is_workers i w r ≡ true
      → (i === id && w === worker) ≡ true
  one_worker id worker i w r h k = elim (Option-cases r.worker_id) [
    | inl n ↦ ground arith
    | inr (x, e) ↦ ground (
      arith,
      ===_iff r.id id,
      ===_iff r.id i,
      ===_iff i id,
      ===_iff x worker,
      ===_iff x w,
      ===_iff w worker,
    )
  ]

  execute-holds :
      (id worker : String) (t : ℕ) (s : Statement J) (rows : List (BuildRun J))
      → is_before id worker t s ≡ true
      → IsTable rows
      → any (holds id worker t) rows ≡ true
      → any (holds id worker t) (execute s rows) ≡ true
  unfolding execute heartbeat mark_pushing recover_expired_leases complete fail request_cancel
      update_metadata
  execute-holds id worker t (creates m i now input) rows b g =
      create-holds m i now input id worker t rows
  execute-holds id worker t (claims locked now w seconds) rows b g =
      claim-holds locked now w seconds id worker t rows g
  execute-holds id worker t (beats now i w seconds) rows b g =
      holds_kept id worker t _ (renewed now seconds) rows (λ r m h e. ground arith)
  execute-holds id worker t (pushes i w) rows b g =
      holds_kept id worker t _ pushed rows (λ r m h e. ground arith)
  execute-holds id worker t (recovers _) rows b g =
      holds_kept id worker t _ recovered rows (λ r m h e. ground arith)
  execute-holds id worker t (completes now i w) rows b g =
      holds_kept id worker t _ (finish now succeeded) rows
        (λ r m h e. let o = one_worker id worker i w r (ground arith) e in ground arith)
  execute-holds id worker t (fails now i w error) rows b g =
      holds_kept id worker t _ _ rows
        (λ r m h e. let o = one_worker id worker i w r (ground arith) e in ground arith)
  execute-holds id worker t (cancels now _) rows b g =
      holds_kept id worker t _ (cancel now) rows (λ r m h e. ground arith)
  execute-holds id worker t (describes _ _) rows b g =
      holds_kept id worker t _ _ rows (λ r m h e. h)

  -- While a worker's lease on a run lasts, nobody takes the run from it: whatever statements run,
  -- none of them the worker's own completion or failure of the run, no recovery of a time past the
  -- lease and no heartbeat that would end earlier, the worker still holds the run, and its heartbeat
  -- finds it.
  pub lease_kept :
      (id worker : String) (t : ℕ) (ss : List (Statement J)) (rows : List (BuildRun J))
      → all (is_before id worker t) ss ≡ true
      → IsTable rows
      → any (holds id worker t) rows ≡ true
      → (now seconds : ℕ)
      → (any (holds id worker t) (execute_all ss rows) ≡ true)
        × ((heartbeat now id worker seconds (execute_all ss rows)).0 ≡ true)
  unfolding execute_all heartbeat
  lease_kept id worker t [] rows b g h now seconds =
      let (r, m, y) = any-witness _ rows h in (h, any-of_mem _ r rows m (ground arith))
  lease_kept id worker t (s ∷ ss) rows b g h now seconds =
      lease_kept id worker t ss _ (ground arith) (execute-IsTable s rows g)
        (execute-holds id worker t s rows (ground arith) g h) now seconds
