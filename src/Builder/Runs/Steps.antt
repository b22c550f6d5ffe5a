-- ===== src/Builder/Runs/Steps.antt =====
-- The statements on the table of runs, in any order: what the HTTP API and the workers can do.
use devion.Prelude.{ℕ, String, Bool, List, [], ◌∷◌}
use devion.Builder.Runs.{
  BuildRun, CreateRunInput, create, claim, heartbeat, mark_pushing, recover_expired_leases,
  complete, fail, request_cancel, update_metadata,
}

-- A time, a lease in seconds, the run and the worker are those that the caller gives.
pub data Statement (J : Type 0) : Type 0 where
  creates : (no_metadata : J) (id : String) (now : ℕ) (input : CreateRunInput J) → Statement J
  claims : (locked : String → Bool) (now : ℕ) (worker : String) (seconds : ℕ) → Statement J
  beats : (now : ℕ) (id worker : String) (seconds : ℕ) → Statement J
  pushes : (id worker : String) → Statement J
  recovers : (now : ℕ) → Statement J
  completes : (now : ℕ) (id worker : String) → Statement J
  fails : (now : ℕ) (id worker : String) (error : List ℕ) → Statement J
  cancels : (now : ℕ) (id : String) → Statement J
  describes : (id : String) (metadata : J) → Statement J

unfoldable pub execute : {J : Type 0} → Statement J → List (BuildRun J) → List (BuildRun J)
execute (creates no_metadata id now input) rows = (create no_metadata id now input rows).1
execute (claims locked now worker seconds) rows = (claim locked now worker seconds rows).1
execute (beats now id worker seconds) rows = (heartbeat now id worker seconds rows).1
execute (pushes id worker) rows = (mark_pushing id worker rows).1
execute (recovers now) rows = recover_expired_leases now rows
execute (completes now id worker) rows = complete now id worker rows
execute (fails now id worker error) rows = fail now id worker error rows
execute (cancels now id) rows = (request_cancel now id rows).1
execute (describes id metadata) rows = update_metadata id metadata rows

unfoldable pub execute_all :
    {J : Type 0} → List (Statement J) → List (BuildRun J) → List (BuildRun J)
execute_all [] rows = rows
execute_all (s ∷ ss) rows = execute_all ss (execute s rows)
