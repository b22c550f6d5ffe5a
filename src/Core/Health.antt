-- ===== src/Core/Health.antt =====
-- Health checks: `HealthRegistry` of packages/core/src/health/health-checker.ts.
-- What a check's function does is the parameter `Run`: it answers, or it throws or is late.
-- Durations, messages and the clock are left out.
pub mod Aggregate
use devion.Prelude.{
  ℕ, String, Bool, true, false, Option, none, some, List, [], ◌∷◌, ◌===◌, if◌then◌else◌, or_else,
  filter, not,
}

pub data HealthStatus : Type 0 where
  ok degraded down : HealthStatus

-- `RegisteredCheck`; the function is what it gives in one run, `none` for an error or a timeout.
pub record Check : Type 0 where
  pub name : String
  pub result : Option HealthStatus
  pub critical : Bool

-- `register`: `Map.prototype.set`.
unfoldable pub register : String → Option HealthStatus → Option Bool → List Check → List Check
register name result critical [] =
    record { name = name; result = result; critical = or_else critical true } ∷ []
register name result critical (c ∷ checks) =
    let rest = register name result critical checks in
    if c.name === name
    then record { name = name; result = result; critical = or_else critical true } ∷ checks
    else c ∷ rest

unfoldable pub unregister : String → List Check → List Check
unregister name checks = filter (λ c. not (c.name === name)) checks

-- `runOne`.
abbrev pub run_one : Check → HealthStatus
run_one c = or_else c.result down

-- One round of the aggregation.
abbrev pub combine : HealthStatus → Bool → HealthStatus → HealthStatus
combine status true down = down
combine down false down = down
combine ok false down = degraded
combine degraded false down = degraded
combine ok critical degraded = degraded
combine status critical result = status

unfoldable pub aggregate : HealthStatus → List Check → HealthStatus
aggregate status [] = status
aggregate status (c ∷ checks) = aggregate (combine status c.critical (run_one c)) checks

-- `run`, and the response's status of `handler`.
unfoldable pub run : List Check → HealthStatus
run checks = aggregate ok checks

abbrev pub http_status : HealthStatus → ℕ
http_status down = 503
http_status _ = 200
