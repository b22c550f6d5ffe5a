-- ===== src/Builder/Tests.antt =====
-- Runs of the Builder's models at concrete inputs.
mod Builds
use devion.Prelude.{
  ℕ, ◌-◌, ◌+◌, ◌<◌, ◌≤◌, ◌≡◌, refl, ◌⊎◌, inl, inr, ◌↔◌, String, Bool, true, false, Option, none,
  some, List, [], ◌∷◌, ◌++◌, map, any, filter, is_nil, has, All, ◌∈◌, arith,
}
use devion.Control.Store.Rows.{AllApart}
use devion.Builder.Runs.{
  queued, running, BuildRun, CreateRunInput, create, claim, heartbeat, mark_pushing,
  recover_expired_leases, complete, fail, request_cancel, new_run, is_claimable, claimed,
}
use devion.Builder.Runs.Steps.{
  Statement, creates, claims, beats, pushes, recovers, completes, fails, cancels, describes,
  execute, execute_all,
}
use devion.Builder.Runs.Sound.{IsTable, IsSound, same_id, execute_all-IsTable}
use devion.Builder.Runs.Fencing.{recovered_fenced}
use devion.Builder.Runs.Lease.{holds, lease_kept}
use devion.Builder.Runs.Cancel.{IsStopping, request_cancel_final}
use devion.Builder.Runs.Queue.{IsClaimOf, claim_oldest}
use devion.Builder.Runs.Idempotent.{create_idempotent}

abbrev input : String → CreateRunInput ℕ
input key = record {
  workflow = 1;
  source = 2;
  inputs = [];
  secrets = ("TOKEN", 7 ∷ []) ∷ [];
  idempotency_key = key;
}

abbrev free : String → Bool
free id = false

-- Two runs are created, the first is claimed, and it is cancelled while it is in work.
abbrev history : List (Statement ℕ)
history =
    creates 0 "a" 1000 (input "one")
    ∷ creates 0 "b" 2000 (input "two")
    ∷ claims free 3000 "w:1" 60
    ∷ []

abbrev table : List (BuildRun ℕ)
table = execute_all history []

execute_all-IsTable_example : IsTable table
execute_all-IsTable_example = execute_all-IsTable history [] (tt, tt)

table-IsTable : IsTable table
table-IsTable = execute_all-IsTable history [] (tt, tt)

recovered_fenced_example :
    (heartbeat 70000 "a" "w:1" 60
        (execute_all (claims free 65000 "w:2" 60 ∷ []) (recover_expired_leases 64000 table))
      ≡ (false, execute_all (claims free 65000 "w:2" 60 ∷ []) (recover_expired_leases 64000 table)))
    × (mark_pushing "a" "w:1"
          (execute_all (claims free 65000 "w:2" 60 ∷ []) (recover_expired_leases 64000 table))
        ≡ (
          false,
          execute_all (claims free 65000 "w:2" 60 ∷ []) (recover_expired_leases 64000 table),
        ))
    × (complete 70000 "a" "w:1"
          (execute_all (claims free 65000 "w:2" 60 ∷ []) (recover_expired_leases 64000 table))
        ≡ execute_all (claims free 65000 "w:2" 60 ∷ []) (recover_expired_leases 64000 table))
    × (fail 70000 "a" "w:1"
          (1 ∷ [])
          (execute_all (claims free 65000 "w:2" 60 ∷ []) (recover_expired_leases 64000 table))
        ≡ execute_all (claims free 65000 "w:2" 60 ∷ []) (recover_expired_leases 64000 table))
unfolding execute_all execute create claim
recovered_fenced_example =
    recovered_fenced 64000 "a" "w:1" table (claims free 65000 "w:2" 60 ∷ []) refl refl 70000 60
      (1 ∷ [])

lease_kept_example :
    (any
        (holds "a" "w:1" 62000)
        (execute_all (recovers 61000 ∷ claims free 61000 "w:2" 60 ∷ cancels 61500 "a" ∷ []) table)
      ≡ true)
    × ((heartbeat 62000 "a" "w:1" 60 (
          execute_all
            (recovers 61000 ∷ claims free 61000 "w:2" 60 ∷ cancels 61500 "a" ∷ [])
            table)).0
        ≡ true)
unfolding execute_all execute create claim
lease_kept_example =
    lease_kept "a" "w:1" 62000
      (recovers 61000 ∷ claims free 61000 "w:2" 60 ∷ cancels 61500 "a" ∷ []) table refl
      table-IsTable refl 62000 60

request_cancel_final_example :
    IsStopping "a" (execute_all (completes 5000 "a" "w:1" ∷ []) (request_cancel 4000 "a" table).1)
unfolding execute_all execute create claim request_cancel
request_cancel_final_example =
    request_cancel_final 4000 "a" table (completes 5000 "a" "w:1" ∷ []) table-IsTable refl

claim_oldest_example :
    ((any (is_claimable free) table ≡ false) × (claim free 4000 "w:2" 60 table ≡ (none, table)))
    ⊎ ((r : BuildRun ℕ) × (r ∈ table)
        × (is_claimable free r ≡ true)
        × All (λ x. r.created_at ≤ x.created_at) (filter (is_claimable free) table)
        × ((c : BuildRun ℕ) × ((claim free 4000 "w:2" 60 table).0 ≡ some c)
            × (c ∈ (claim free 4000 "w:2" 60 table).1)
            × IsClaimOf 4000 "w:2" 60 r c))
claim_oldest_example = claim_oldest free 4000 "w:2" 60 table

create_idempotent_example :
    (s : BuildRun ℕ) × (create 0 "d" 9000
        (input "three")
        (execute_all (claims free 5000 "w:2" 60 ∷ []) (create 0 "c" 4000 (input "three") table).1)
      ≡ (
        some (s, false),
        execute_all (claims free 5000 "w:2" 60 ∷ []) (create 0 "c" 4000 (input "three") table).1,
      ))
    × (s.id ≡ "c")
unfolding execute_all execute create claim
create_idempotent_example =
    create_idempotent 0 0 "c" "d" 4000 9000 (input "three") (input "three")
      (new_run 0 "c" 4000 (input "three")) true table (claims free 5000 "w:2" 60 ∷ []) refl refl
