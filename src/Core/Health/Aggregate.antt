-- ===== src/Core/Health/Aggregate.antt =====
-- When the whole counts as down, and when as well.
use devion.Prelude.{◌≡◌, ◌↔◌, Bool, true, false, ◌&&◌, ◌||◌, List, [], ◌∷◌, any, all, arith}
use devion.Core.Health.{
  HealthStatus, ok, down, Check, run_one, combine, aggregate, run, http_status,
}

abbrev pub is_down : HealthStatus → Bool
is_down down = true
is_down _ = false

abbrev pub is_ok : HealthStatus → Bool
is_ok ok = true
is_ok _ = false

abbrev pub is_fatal : Check → Bool
is_fatal c = c.critical && is_down (run_one c)

aggregate_down :
    (status : HealthStatus) (checks : List Check)
    → is_down (aggregate status checks) ≡ (is_down status || any is_fatal checks)
unfolding aggregate
aggregate_down status [] = ground arith
aggregate_down status (c ∷ checks) =
    ground (arith, aggregate_down (combine status c.critical (run_one c)) checks)

aggregate_ok :
    (status : HealthStatus) (checks : List Check)
    → is_ok (aggregate status checks) ≡ (is_ok status && all (λ c. is_ok (run_one c)) checks)
unfolding aggregate
aggregate_ok status [] = ground arith
aggregate_ok status (c ∷ checks) =
    ground (arith, aggregate_ok (combine status c.critical (run_one c)) checks)

-- A run answers with 503 exactly when a critical check is down, throws or is late, and it is well
-- exactly when every check is, in whatever order the checks stand.
pub run_iff :
    (checks : List Check)
    → ((http_status (run checks) ≡ 503) ↔ (any is_fatal checks ≡ true))
      × ((run checks ≡ ok) ↔ (all (λ c. is_ok (run_one c)) checks ≡ true))
unfolding run
run_iff checks = (
  (ground (arith, aggregate_down ok checks), ground (arith, aggregate_down ok checks)),
  (ground (arith, aggregate_ok ok checks), ground (arith, aggregate_ok ok checks)),
)
