-- ===== src/Builder/Runs.antt =====
-- The Builder's runs: `PostgresRunRepository` of apps/builder/src/postgres.ts on the table that
-- apps/builder/migrations/001_init.sql creates. The table is a list of rows; `J` is the type of the
-- values that a `jsonb` column holds unread, a text is a list of code units, and a time is in
-- milliseconds. Each operation is one statement, which the database runs at once.
pub mod Steps
pub mod Sound
pub mod Fencing
pub mod Lease
pub mod Queue
pub mod Cancel
pub mod Idempotent
use devion.Prelude.{
  ℕ, suc, ◌+◌, ◌*◌, String, Bool, true, false, Option, none, some, List, [], ◌∷◌, ◌++◌, ltb, ◌===◌,
  if◌then◌else◌, ◌&&◌, not, any, filter, find, take,
}
use devion.Control.Store.{update_where}

pub data RunStatus : Type 0 where
  queued running pushing succeeded failed cancelled : RunStatus

pub record BuildRun (J : Type 0) : Type 0 where
  pub id : String
  pub workflow : J
  pub source : J
  pub inputs : List (String × String)
  pub secrets : List (String × List ℕ)
  pub metadata : J
  pub status : RunStatus
  pub attempt : ℕ
  pub idempotency_key : String
  pub lease_expires_at : Option ℕ
  pub worker_id : Option String
  pub cancel_requested : Bool
  pub error : Option (List ℕ)
  pub created_at : ℕ
  pub started_at : Option ℕ
  pub finished_at : Option ℕ

-- The secrets are already sealed.
pub record CreateRunInput (J : Type 0) : Type 0 where
  pub workflow : J
  pub source : J
  pub inputs : List (String × String)
  pub secrets : List (String × List ℕ)
  pub idempotency_key : String

abbrev pub is_queued : RunStatus → Bool
is_queued queued = true
is_queued _ = false

-- `status IN ('running','pushing')`.
abbrev pub is_held : RunStatus → Bool
is_held running = true
is_held pushing = true
is_held _ = false

abbrev pub is_running : RunStatus → Bool
is_running running = true
is_running _ = false

-- `status IN ('queued', 'running', 'pushing')`.
abbrev pub is_live : RunStatus → Bool
is_live queued = true
is_live status = is_held status

-- A column that may be NULL against a value.
abbrev pub equals : Option String → String → Bool
equals none t = false
equals (some s) t = s === t

-- `lease_expires_at < now()`.
abbrev pub is_past : Option ℕ → ℕ → Bool
is_past none now = false
is_past (some at) now = ltb at now

abbrev pub lease_until : ℕ → ℕ → Option ℕ
lease_until now seconds = some (now + seconds * 1000)

module _ {J : Type 0} where
  -- The columns that the statement leaves out have the defaults of the migration.
  abbrev pub new_run : J → String → ℕ → CreateRunInput J → BuildRun J
  new_run no_metadata id now input = record {
    id = id;
    workflow = input.workflow;
    source = input.source;
    inputs = input.inputs;
    secrets = input.secrets;
    metadata = no_metadata;
    status = queued;
    attempt = 0;
    idempotency_key = input.idempotency_key;
    lease_expires_at = none;
    worker_id = none;
    cancel_requested = false;
    error = none;
    created_at = now;
    started_at = none;
    finished_at = none;
  }

  abbrev pub has_key : String → BuildRun J → Bool
  has_key key r = r.idempotency_key === key

  abbrev pub has_id : String → BuildRun J → Bool
  has_id id r = r.id === id

  -- `create`: the row that holds the key, and whether it is a new one; none where the primary key
  -- clashes. The update on conflict writes the key that is there.
  unfoldable pub create :
      J
      → String
      → ℕ
      → CreateRunInput J
      → List (BuildRun J)
      → Option (BuildRun J × Bool) × List (BuildRun J)
  create no_metadata id now input rows = elim (find (has_key input.idempotency_key) rows) [
    | some r ↦ (some (r, false), rows)
    | none ↦
        let r : BuildRun J = new_run no_metadata id now input in
        if any (has_id id) rows then (none, rows) else (some (r, true), rows ++ r ∷ [])
  ]

  -- `ORDER BY created_at LIMIT 1`.
  abbrev pub older : BuildRun J → Option (BuildRun J) → BuildRun J
  older r none = r
  older r (some s) = if ltb s.created_at r.created_at then s else r

  abbrev pub oldest : List (BuildRun J) → Option (BuildRun J)
  oldest [] = none
  oldest (r ∷ rows) = some (older r (oldest rows))

  abbrev pub claimed : ℕ → String → ℕ → BuildRun J → BuildRun J
  claimed now worker seconds r = record r {
    status = running;
    worker_id = some worker;
    attempt = r.attempt + 1;
    started_at = some now;
    lease_expires_at = lease_until now seconds;
  }

  -- The rows that `next_run` selects from; `locked` are those of other transactions.
  abbrev pub is_claimable : (String → Bool) → BuildRun J → Bool
  is_claimable locked r = is_queued r.status && not (locked r.id)

  unfoldable pub claim :
      (String → Bool) → ℕ → String → ℕ → List (BuildRun J) → Option (BuildRun J) × List (BuildRun J)
  claim locked now worker seconds rows = elim (oldest (filter (is_claimable locked) rows)) [
    | none ↦ (none, rows)
    | some r ↦ (
      some (claimed now worker seconds r),
      update_where (has_id r.id) (claimed now worker seconds) rows,
    )
  ]

  -- `WHERE id = … AND worker_id = …`.
  abbrev pub is_workers : String → String → BuildRun J → Bool
  is_workers id worker r = r.id === id && equals r.worker_id worker

  -- An update, and whether it returns a row.
  abbrev pub update_returning :
      (BuildRun J → Bool) → (BuildRun J → BuildRun J) → List (BuildRun J) → Bool × List (BuildRun J)
  update_returning test write rows = (any test rows, update_where test write rows)

  abbrev pub renewed : ℕ → ℕ → BuildRun J → BuildRun J
  renewed now seconds r = record r { lease_expires_at = lease_until now seconds }

  unfoldable pub heartbeat : ℕ → String → String → ℕ → List (BuildRun J) → Bool × List (BuildRun J)
  heartbeat now id worker seconds =
      update_returning (λ r. is_workers id worker r && is_held r.status) (renewed now seconds)

  abbrev pub pushed : BuildRun J → BuildRun J
  pushed r = record r { status = pushing }

  unfoldable pub mark_pushing : String → String → List (BuildRun J) → Bool × List (BuildRun J)
  mark_pushing id worker =
      update_returning (λ r. is_workers id worker r && is_running r.status) pushed

  abbrev pub is_expired : ℕ → BuildRun J → Bool
  is_expired now r = is_held r.status && is_past r.lease_expires_at now

  abbrev pub recovered : BuildRun J → BuildRun J
  recovered r = record r {
    status = queued;
    worker_id = none;
    lease_expires_at = none;
    started_at = none;
  }

  unfoldable pub recover_expired_leases : ℕ → List (BuildRun J) → List (BuildRun J)
  recover_expired_leases now = update_where (is_expired now) recovered

  abbrev pub finish : ℕ → RunStatus → BuildRun J → BuildRun J
  finish now status r = record r {
    status = if r.cancel_requested then cancelled else status;
    finished_at = some now;
    lease_expires_at = none;
    secrets = [];
  }

  unfoldable pub complete : ℕ → String → String → List (BuildRun J) → List (BuildRun J)
  complete now id worker = update_where (is_workers id worker) (finish now succeeded)

  unfoldable pub fail : ℕ → String → String → List ℕ → List (BuildRun J) → List (BuildRun J)
  fail now id worker error =
      update_where (is_workers id worker)
        (λ r. record (finish now failed r) { error = some (take 8000 error) })

  abbrev pub cancel : ℕ → BuildRun J → BuildRun J
  cancel now r = record r {
    cancel_requested = true;
    status = if is_queued r.status then cancelled else r.status;
    finished_at = if is_queued r.status then some now else r.finished_at;
  }

  unfoldable pub request_cancel : ℕ → String → List (BuildRun J) → Bool × List (BuildRun J)
  request_cancel now id = update_returning (λ r. has_id id r && is_live r.status) (cancel now)

  unfoldable pub update_metadata : String → J → List (BuildRun J) → List (BuildRun J)
  update_metadata id metadata = update_where (has_id id) (λ r. record r { metadata = metadata })
