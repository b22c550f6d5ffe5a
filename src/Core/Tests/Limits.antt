-- ===== src/Core/Tests/Limits.antt =====
-- Rate limits, health checks and errors on small inputs.
use devion.Prelude.{String, ◌≡◌, refl, min, true, false, none, some, List, [], ◌∷◌, arith}
use devion.Core.RateLimit.{Hits, Limits, passed}
use devion.Core.RateLimit.Window.{passed_window}
use devion.Core.Health.{ok, degraded, Check, run, aggregate}
use devion.Core.Errors.{
  AppError, not_found, app_error, native_error, new_app_error, from, to_app_error, to_response,
  handle_error,
}
use devion.Core.Errors.Exposure.{handle_error_message}

abbrev login : Limits
login = record { window_ms = 900000; max = 5 }

abbrev hits : Hits
hits =
    ("a", record { count = 3; reset_at = 500 }) ∷ ("b", record { count = 1; reset_at = 9000 }) ∷ []

passed_window_example : passed login "a" (1000 ∷ 2000 ∷ 3000 ∷ []) hits ≡ min 3 5
passed_window_example =
    passed_window login "a" 1000 (2000 ∷ 3000 ∷ []) hits (λ c e. ground arith)
      (omega arith, (omega arith, tt))

abbrev checks : List Check
checks =
    record { name = "db"; result = some ok; critical = true }
    ∷ record { name = "mail"; result = none; critical = false }
    ∷ []

-- A check that throws and is not critical degrades the whole.
mail_is_late : run checks ≡ degraded
unfolding run aggregate
mail_is_late = refl

-- An expected error that exposes its details.
abbrev missing : AppError String
missing =
    new_app_error String "No such node" not_found none
      (record { cause = none; details = some "node-1"; expose = some true; is_operational = none })
      5

details_shown : (handle_error String false (app_error missing) 9).body.details ≡ some "node-1"
unfolding handle_error to_app_error from new_app_error to_response
details_shown = refl

handle_error_message_example :
    let handled = handle_error String false (native_error "password is wrong" "cause") 9 in
    (handled.status ≡ 500)
    × (handled.body.message ≡ "password is wrong")
    × (handled.body.debug_message ≡ none)
handle_error_message_example = handle_error_message String false "password is wrong" "cause" 9
