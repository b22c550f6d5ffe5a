-- ===== src/Builder/Tests/Builds.antt =====
-- Workflows, logs and secrets at concrete inputs.
use devion.Prelude.{
  ℕ, ◌-◌, ◌+◌, ◌≡◌, refl, inl, inr, ◌↔◌, String, Bool, true, false, Option, none, some, List, [],
  ◌∷◌, ◌++◌, ◌===◌, not, any, map, is_nil, has, ltb, arith,
}
use devion.Builder.Workflow.{WorkflowStep, validate_graph, visit, dependency_cycle}
use devion.Builder.Workflow.Valid.{IsValid, validate_graph_iff}
use devion.Builder.Execution.{
  finished, rejected, succeeded, skipped, run_graph, run_rounds, decide, condition_matches,
}
use devion.Builder.Execution.Progress.{IsEnd, run_graph-IsEnd}
use devion.Builder.Execution.Conditions.{EndsSkipped, run_graph_on_failure}
use devion.Builder.Logs.{
  PendingLog, stdout, stored, LogBuffer, new_buffer, Event, appends, elapses, settles, handle_all,
}
use devion.Builder.Logs.Buffer.{view, IsHealthy, appended, handle_all-view, handle_all-rejected}
use devion.Builder.Secrets.{Crypto, encrypt_run_secrets, decrypt_run_secrets}
use devion.Builder.Secrets.RoundTrip.{IsCrypto, decrypt-encrypt_run_secrets}

abbrev step : String → List String → Option String → WorkflowStep
step id needs condition = record {
  id = id;
  needs = needs;
  condition = condition;
  retries = 1;
  continue_on_error = false;
}

abbrev steps : List WorkflowStep
steps =
    step "deploy" ("test" ∷ "build" ∷ []) none
    ∷ step "build" [] none
    ∷ step "test" ("build" ∷ []) none
    ∷ step "alarm" ("test" ∷ []) (some "failure()")
    ∷ []

validate_graph_iff_example : (validate_graph steps ≡ some []) ↔ IsValid steps
validate_graph_iff_example = validate_graph_iff steps

steps_checked : validate_graph steps ≡ some []
unfolding validate_graph visit
steps_checked = refl

cycle_reported :
    validate_graph (step "a" ("b" ∷ []) none ∷ step "b" ("a" ∷ []) none ∷ [])
    ≡ some (dependency_cycle ("a" ∷ "b" ∷ "a" ∷ []) ∷ [])
unfolding validate_graph visit
cycle_reported = refl

-- The first attempt of the build fails.
abbrev attempts : String → ℕ → Bool
attempts id n = ltb 1 n

abbrev no_abort : ℕ → Bool
no_abort round = false

run_graph-IsEnd_example : IsEnd attempts no_abort steps (run_graph attempts no_abort 5 steps).1
run_graph-IsEnd_example = run_graph-IsEnd attempts no_abort steps 5 steps_checked (omega arith)

-- The test never succeeds.
abbrev failing : String → ℕ → Bool
failing id n = not (id === "test")

run_graph_on_failure_example :
    (any (λ t. t.id === "alarm") (run_graph failing no_abort 5 steps).0 ≡ false)
    × EndsSkipped
        (step "alarm" ("test" ∷ []) (some "failure()"))
        (run_graph failing no_abort 5 steps).1
run_graph_on_failure_example =
    run_graph_on_failure failing no_abort steps 5 (step "alarm" ("test" ∷ []) (some "failure()"))
      steps_checked (omega arith) (inr (inr (inr (inl refl)))) refl

-- The build and the test start, and the test rejects the run.
test_rejects :
    (map (λ t. t.id) (run_graph failing no_abort 5 steps).0 ≡ "build" ∷ "test" ∷ [])
    × ((run_graph failing no_abort 5 steps).1 ≡ rejected "test")
unfolding run_graph run_rounds decide condition_matches
test_rejects = (refl, refl)

alarm_skipped :
    (run_graph attempts no_abort 5 steps).1
    ≡ finished (
        ("deploy", succeeded)
        ∷ ("alarm", skipped)
        ∷ ("test", succeeded)
        ∷ ("build", succeeded)
        ∷ [])
unfolding run_graph run_rounds decide condition_matches
alarm_skipped = refl

abbrev line : ℕ → PendingLog
line n = record { run_id = "a"; step_id = none; stream = stdout; message = n ∷ [] }

abbrev events : List Event
events = appends (line 1) ∷ appends (line 2) ∷ elapses ∷ appends (line 3) ∷ settles true ∷ []

handle_all-view_example :
    (view (handle_all 2 events new_buffer) ≡ view new_buffer ++ map stored (appended events))
    × IsHealthy 2 (handle_all 2 events new_buffer)
handle_all-view_example =
    handle_all-view 2 events new_buffer (omega arith) refl (omega arith, refl, refl)

-- Of two batches that wait the first cannot be written, and the second could.
abbrev waiting_buffer : LogBuffer
waiting_buffer = record new_buffer { flushing = (line 1 ∷ []) ∷ (line 2 ∷ []) ∷ [] }

handle_all-rejected_example :
    (handle_all 1
      (settles false ∷ appends (line 3) ∷ settles true ∷ settles true ∷ [])
      waiting_buffer).written
    ≡ []
handle_all-rejected_example =
    handle_all-rejected 1 (line 1 ∷ []) ((line 2 ∷ []) ∷ [])
      (appends (line 3) ∷ settles true ∷ settles true ∷ []) waiting_buffer refl

-- A cipher that shifts and tags, and codecs that keep what they are given off the dot.
abbrev raise : List ℕ → List ℕ
raise = map (λ n. n + 100)

abbrev lower : List ℕ → List ℕ
lower = map (λ n. n - 100)

abbrev untag : List ℕ → Option (List ℕ)
untag [] = none
untag (t ∷ bytes) = some bytes

abbrev crypto : Crypto
crypto = record {
  sha256 = λ bytes. bytes;
  encrypt = λ k iv bytes. 9 ∷ bytes;
  decrypt = λ k iv bytes. untag bytes;
  utf8 = λ text. text;
  from_utf8 = λ bytes. bytes;
  base64url = raise;
  from_base64url = lower;
}

lower-raise : (bytes : List ℕ) → lower (raise bytes) ≡ bytes
lower-raise [] = refl
lower-raise (b ∷ bytes) = ground (arith, lower-raise bytes)

raise-dotless : (bytes : List ℕ) → has (raise bytes) 46 ≡ false
raise-dotless [] = refl
raise-dotless (b ∷ bytes) = ground (arith, raise-dotless bytes)

raise-nil : (bytes : List ℕ) → is_nil (raise bytes) ≡ is_nil bytes
raise-nil [] = refl
raise-nil (b ∷ bytes) = refl

crypto-IsCrypto : IsCrypto crypto
crypto-IsCrypto = record {
  from-base64url = lower-raise;
  base64url-dotless = raise-dotless;
  base64url-nil = raise-nil;
  decrypt-encrypt = λ k iv bytes. refl;
  encrypt-tagged = λ k iv bytes. refl;
}

decrypt-encrypt_run_secrets_example :
    decrypt_run_secrets crypto
      (encrypt_run_secrets crypto (λ i. i ∷ []) 0 (("TOKEN", 1 ∷ 2 ∷ []) ∷ []) (5 ∷ []))
      (5 ∷ [])
    ≡ some (("TOKEN", 1 ∷ 2 ∷ []) ∷ [])
decrypt-encrypt_run_secrets_example =
    decrypt-encrypt_run_secrets crypto crypto-IsCrypto (λ i. i ∷ []) 0 (("TOKEN", 1 ∷ 2 ∷ []) ∷ [])
      (5 ∷ []) (λ i. refl) (refl, tt)
