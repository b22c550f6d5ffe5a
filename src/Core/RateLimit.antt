-- ===== src/Core/RateLimit.antt =====
-- Rate limits: `MemoryStore`, `PostgresStore` and `createRateLimiter` of
-- packages/core/src/firewall/rate-limit.ts.
-- A map from keys and the table of counters are lists of entries; a time is in milliseconds.
pub mod Window
use devion.Prelude.{
  ℕ, suc, ◌+◌, ◌-◌, ◌/◌, max, String, Bool, true, false, Option, none, some, List, [], ◌∷◌, ltb,
  leb, ◌===◌, if◌then◌else◌, not, filter,
}

pub record Counter : Type 0 where
  pub count : ℕ
  pub reset_at : ℕ

-- The entries of a store, by key.
abbrev pub Hits : Type 0
Hits = List (String × Counter)

abbrev pub lookup : String → Hits → Option Counter
lookup key [] = none
lookup key ((k, c) ∷ hits) = if k === key then some c else lookup key hits

-- `Map.prototype.set`, and the writing through an entry that the map holds.
abbrev pub store : String → Counter → Hits → Hits
store key c [] = (key, c) ∷ []
store key c ((k, d) ∷ hits) = if k === key then (k, c) ∷ hits else (k, d) ∷ store key c hits

abbrev pub start_window : ℕ → ℕ → Counter
start_window now window_ms = record { count = 1; reset_at = now + window_ms }

-- The entry that an increment leaves.
abbrev pub next_counter : ℕ → ℕ → Option Counter → Counter
next_counter now window_ms none = start_window now window_ms
next_counter now window_ms (some c) =
    if leb c.reset_at now then start_window now window_ms else record c { count = suc c.count }

-- `MemoryStore.increment`.
unfoldable pub increment : ℕ → ℕ → String → Hits → Counter × Hits
increment now window_ms key hits =
    let c = next_counter now window_ms (lookup key hits) in (c, store key c hits)

-- `MemoryStore.reset` and `cleanup`.
unfoldable pub reset : String → Hits → Hits
reset key hits = filter (λ (k, c). not (k === key)) hits

unfoldable pub cleanup : ℕ → Hits → Hits
cleanup now hits = filter (λ (k, c). not (leb c.reset_at now)) hits

-- The statement of `PostgresStore.increment`, column by column, on the table's rows.
abbrev pub case_count : ℕ → Counter → ℕ
case_count now c = if leb c.reset_at now then 1 else c.count + 1

abbrev pub case_reset_at : ℕ → ℕ → Counter → ℕ
case_reset_at now window_ms c = if leb c.reset_at now then now + window_ms else c.reset_at

unfoldable pub upsert : ℕ → ℕ → String → Hits → Counter × Hits
upsert now window_ms key [] =
    let c : Counter = record { count = 1; reset_at = now + window_ms } in (c, (key, c) ∷ [])
upsert now window_ms key ((k, d) ∷ rows) =
    let (c, rest) = upsert now window_ms key rows in
    let e : Counter = record {
      count = case_count now d;
      reset_at = case_reset_at now window_ms d;
    } in
    if k === key then (e, (k, e) ∷ rows) else (c, (k, d) ∷ rest)

pub record Limits : Type 0 where
  pub window_ms : ℕ
  pub max : ℕ

-- The limiter's headers, and whether the request goes on or is answered with 429.
pub data Verdict : Type 0 where
  next : Verdict
  too_many_requests : (retry_after : ℕ) → Verdict

pub record Answer : Type 0 where
  pub limit : ℕ
  pub remaining : ℕ
  pub reset_seconds : ℕ
  pub verdict : Verdict

-- `Math.ceil(ms / 1000)`.
abbrev pub seconds : ℕ → ℕ
seconds ms = (ms + 999) / 1000

-- The middleware on the store in memory.
unfoldable pub limit_request : Limits → ℕ → String → Hits → Answer × Hits
limit_request limits now key hits =
    let (c, hits') = increment now limits.window_ms key hits in
    (
      record {
        limit = limits.max;
        remaining = limits.max - c.count;
        reset_seconds = seconds c.reset_at;
        verdict =
            if ltb limits.max c.count
            then too_many_requests (max (seconds (c.reset_at - now)) 1)
            else next;
      },
      hits',
    )

abbrev pub passes : Verdict → Bool
passes next = true
passes (too_many_requests _) = false

-- How many of a key's requests at these times go on.
unfoldable pub passed : Limits → String → List ℕ → Hits → ℕ
passed limits key [] hits = 0
passed limits key (now ∷ times) hits =
    let (answer, hits') = limit_request limits now key hits in
    let rest = passed limits key times hits' in if passes answer.verdict then suc rest else rest
