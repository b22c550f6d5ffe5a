-- ===== src/Builder/Logs.antt =====
-- The logs of builds: `LogBuffer` of apps/builder/src/log-buffer.ts, and `appendLogs` and `logs` of
-- apps/builder/src/postgres.ts. A text is a list of code units.
-- The promise `flushing` is the batches whose writing it still chains, and whether it was rejected:
-- a handler chained to a rejected promise is not run.
pub mod Buffer
use devion.Prelude.{
  ℕ, suc, String, Bool, true, false, Option, List, [], ◌∷◌, ◌++◌, ltb, leb, ◌===◌, if◌then◌else◌,
  ◌&&◌, length, is_nil, filter, map, take,
}

pub data LogStream : Type 0 where
  system stdout stderr : LogStream

pub record PendingLog : Type 0 where
  pub run_id : String
  pub step_id : Option String
  pub stream : LogStream
  pub message : List ℕ

-- A row of the table with its identity, which the database counts up. The time of its creation is
-- left out.
pub record LogEntry : Type 0 where
  pub id : ℕ
  pub log : PendingLog

-- What is inserted of an entry.
abbrev pub stored : PendingLog → PendingLog
stored entry = record entry { message = take 32000 entry.message }

-- `appendLogs`: the rows behind those that are there.
unfoldable pub append_logs : ℕ → List PendingLog → List LogEntry → List LogEntry
append_logs next [] rows = rows
append_logs next (entry ∷ entries) rows =
    append_logs (suc next) entries (rows ++ record { id = next; log = stored entry } ∷ [])

-- `logs`: the rows are kept in the order of their identities.
unfoldable pub logs : String → ℕ → List LogEntry → List LogEntry
logs run_id after rows = take 1000 (filter (λ r. r.log.run_id === run_id && ltb after r.id) rows)

-- The buffer, and the entries that the repository has written for it.
pub record LogBuffer : Type 0 where
  pub entries : List PendingLog
  pub timer : Bool
  pub flushing : List (List PendingLog)
  pub is_rejected : Bool
  pub written : List PendingLog

abbrev pub new_buffer : LogBuffer
new_buffer = record {
  entries = [];
  timer = false;
  flushing = [];
  is_rejected = false;
  written = [];
}

unfoldable pub flush : LogBuffer → LogBuffer
flush b =
    if is_nil b.entries
    then record b { timer = false }
    else record b { timer = false; entries = []; flushing = b.flushing ++ b.entries ∷ [] }

unfoldable pub append : ℕ → PendingLog → LogBuffer → LogBuffer
append max_entries entry b =
    let c : LogBuffer = record b { entries = b.entries ++ entry ∷ [] } in
    if leb max_entries (length c.entries) then flush c else record c { timer = true }

-- The timer goes off, if it is set.
abbrev pub elapse : LogBuffer → LogBuffer
elapse b = if b.timer then flush b else b

-- The next batch of the chain is written, in one transaction, or its writing fails.
unfoldable pub settle : Bool → LogBuffer → LogBuffer
settle succeeds b = elim b.flushing [
  | [] ↦ b
  | batch ∷ batches ↦
      if b.is_rejected
      then record b { flushing = batches }
      else if succeeds
      then record b { flushing = batches; written = b.written ++ map stored batch }
      else record b { flushing = batches; is_rejected = true }
]

-- What happens to a buffer.
pub data Event : Type 0 where
  appends : (entry : PendingLog) → Event
  flushes elapses : Event
  settles : (succeeds : Bool) → Event

abbrev pub handle : ℕ → Event → LogBuffer → LogBuffer
handle max_entries (appends entry) b = append max_entries entry b
handle max_entries flushes b = flush b
handle max_entries elapses b = elapse b
handle max_entries (settles succeeds) b = settle succeeds b

unfoldable pub handle_all : ℕ → List Event → LogBuffer → LogBuffer
handle_all max_entries [] b = b
handle_all max_entries (e ∷ es) b = handle_all max_entries es (handle max_entries e b)
