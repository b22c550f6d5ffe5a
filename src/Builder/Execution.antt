-- ===== src/Builder/Execution.antt =====
-- The run of a workflow's steps: `runGraph` of apps/builder/src/executor.ts.
-- The ready steps of a round start together: each is taken from `pending` and decided before any of
-- them waits, so that a step sees which of the round were skipped before it, and no other end of the
-- round. What an attempt of a step comes to, and whether the signal is aborted when a round begins,
-- are parameters.
pub mod Rounds
pub mod Rejection
pub mod Progress
pub mod Justified
pub mod Conditions
use devion.Prelude.{
  ℕ, zero, suc, ◌+◌, String, Bool, true, false, Option, none, some, List, [], ◌∷◌, ◌++◌, ◌===◌,
  ◌||◌, if◌then◌else◌, not, any, all, filter, is_nil,
}
use devion.Builder.Workflow.{WorkflowStep}

pub data Outcome : Type 0 where
  succeeded failed skipped : Outcome

abbrev pub is_succeeded : Outcome → Bool
is_succeeded succeeded = true
is_succeeded _ = false

abbrev pub is_failed : Outcome → Bool
is_failed failed = true
is_failed _ = false

-- The `Map` of outcomes; nothing reads its order.
abbrev pub Outcomes : Type 0
Outcomes = List (String × Outcome)

abbrev pub set_outcome : String → Outcome → Outcomes → Outcomes
set_outcome id o outcomes = (id, o) ∷ filter (λ (k, p). not (k === id)) outcomes

abbrev pub outcome_of : Outcomes → String → Option Outcome
outcome_of [] id = none
outcome_of ((k, o) ∷ outcomes) id = if k === id then some o else outcome_of outcomes id

abbrev pub has_outcome : Outcomes → String → Bool
has_outcome outcomes id = any (λ (k, o). k === id) outcomes

-- `outcomes.get(id) === "succeeded"`.
abbrev pub did_succeed : Outcomes → String → Bool
did_succeed outcomes id = elim (outcome_of outcomes id) [ none ↦ false | some o ↦ is_succeeded o ]

abbrev pub has_failure : Outcomes → Bool
has_failure outcomes = any (λ (k, o). is_failed o) outcomes

-- `conditionMatches`; none where it throws.
unfoldable pub condition_matches : Option String → Outcomes → Option Bool
condition_matches none outcomes = some (not (has_failure outcomes))
condition_matches (some value) outcomes =
    if (value === "") || (value === "success()")
    then some (not (has_failure outcomes))
    else if value === "always()"
    then some true
    else if value === "failure()"
    then some (has_failure outcomes)
    else if value === "false"
    then some false
    else if value === "true"
    then some true
    else none

-- What becomes of a ready step before it waits.
pub data Decision : Type 0 where
  skips starts throws : Decision

abbrev pub decision : Option Bool → Decision
decision none = throws
decision (some true) = starts
decision (some false) = skips

unfoldable pub decide : WorkflowStep → Outcomes → Decision
decide step outcomes =
    if any (λ id. not (did_succeed outcomes id)) step.needs
    then skips
    else decision (condition_matches step.condition outcomes)

-- The loop over the attempts, of which `left` are left: does one succeed?
abbrev pub try_attempts : (ℕ → Bool) → ℕ → ℕ → Bool
try_attempts attempt zero n = false
try_attempts attempt (suc left) n =
    let rest = try_attempts attempt left (suc n) in if attempt n then true else rest

-- How a step that starts ends.
abbrev pub end_of : (String → ℕ → Bool) → WorkflowStep → Outcome
end_of attempt step =
    if try_attempts (attempt step.id) (step.retries + 1) 1
    then succeeded
    else if step.continue_on_error
    then succeeded
    else failed

abbrev pub is_ready : Outcomes → WorkflowStep → Bool
is_ready outcomes step = all (has_outcome outcomes) step.needs

abbrev pub delete_step : String → List WorkflowStep → List WorkflowStep
delete_step id = filter (λ s. not (s.id === id))

-- `new Map(steps.map(…))`: the last of the steps of one identity, in the place of the first.
abbrev pub set_step : WorkflowStep → List WorkflowStep → List WorkflowStep
set_step step [] = step ∷ []
set_step step (s ∷ pending) = if s.id === step.id then step ∷ pending else s ∷ set_step step pending

abbrev pub pending_of : List WorkflowStep → List WorkflowStep → List WorkflowStep
pending_of pending [] = pending
pending_of pending (step ∷ steps) = pending_of (set_step step pending) steps

-- Before the ready steps wait: those that are skipped have their outcome.
abbrev pub start_all : List WorkflowStep → Outcomes → List (WorkflowStep × Decision) × Outcomes
start_all [] outcomes = ([], outcomes)
start_all (step ∷ ready) outcomes = elim (decide step outcomes) [
  | skips ↦
      let (started, after) = start_all ready (set_outcome step.id skipped outcomes) in
      ((step, skips) ∷ started, after)
  | starts ↦ let (started, after) = start_all ready outcomes in ((step, starts) ∷ started, after)
  | throws ↦ let (started, after) = start_all ready outcomes in ((step, throws) ∷ started, after)
]

-- The steps that start have their outcome at their ends.
abbrev pub settle_all : (String → ℕ → Bool) → List (WorkflowStep × Decision) → Outcomes → Outcomes
settle_all attempt [] outcomes = outcomes
settle_all attempt ((step, starts) ∷ started) outcomes =
    settle_all attempt started (set_outcome step.id (end_of attempt step) outcomes)
settle_all attempt ((step, _) ∷ started) outcomes = settle_all attempt started outcomes

abbrev pub is_rejected : (String → ℕ → Bool) → WorkflowStep × Decision → Bool
is_rejected attempt (step, skips) = false
is_rejected attempt (step, throws) = true
is_rejected attempt (step, starts) = is_failed (end_of attempt step)

-- The first rejection in the order of the ready steps.
abbrev pub rejection : (String → ℕ → Bool) → List (WorkflowStep × Decision) → Option String
rejection attempt [] = none
rejection attempt ((step, d) ∷ started) =
    if is_rejected attempt (step, d) then some step.id else rejection attempt started

abbrev pub delete_all : List WorkflowStep → List WorkflowStep → List WorkflowStep
delete_all [] pending = pending
delete_all (step ∷ ready) pending = delete_all ready (delete_step step.id pending)

-- The steps that start, of a round.
abbrev pub started_steps : List (WorkflowStep × Decision) → List WorkflowStep
started_steps [] = []
started_steps ((step, starts) ∷ started) = step ∷ started_steps started
started_steps ((step, _) ∷ started) = started_steps started

-- `exhausted` is the end of the fuel, which the loop has not.
pub data RunResult : Type 0 where
  finished : (outcomes : Outcomes) → RunResult
  build_cancelled deadlock exhausted : RunResult
  rejected : (step : String) → RunResult

-- The steps that the rounds start, in their order, and the end of the run.
unfoldable pub run_rounds :
    (String → ℕ → Bool)
    → (ℕ → Bool)
    → ℕ
    → ℕ
    → List WorkflowStep
    → Outcomes
    → List WorkflowStep × RunResult
run_rounds attempt aborted zero round pending outcomes = ([], exhausted)
run_rounds attempt aborted (suc fuel) round [] outcomes = ([], finished outcomes)
run_rounds attempt aborted (suc fuel) round (p ∷ ps) outcomes = elim (aborted round) [
  | true ↦ ([], build_cancelled)
  | false ↦
      let ready = filter (is_ready outcomes) (p ∷ ps) in
      let (started, after) = start_all ready outcomes in
      elim (is_nil ready) [
        | true ↦ ([], deadlock)
        | false ↦ elim (rejection attempt started) [
          | some id ↦ (started_steps started, rejected id)
          | none ↦
              let rest =
                run_rounds attempt aborted fuel (suc round) (delete_all ready (p ∷ ps))
                  (settle_all attempt started after) in
              (started_steps started ++ rest.0, rest.1)
        ]
      ]
]

unfoldable pub run_graph :
    (String → ℕ → Bool) → (ℕ → Bool) → ℕ → List WorkflowStep → List WorkflowStep × RunResult
run_graph attempt aborted fuel steps = run_rounds attempt aborted fuel 0 (pending_of [] steps) []
