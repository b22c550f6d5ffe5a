-- ===== src/Builder/Execution/Justified.antt =====
-- What becomes of a step that waits for a failure: what the rounds of a run start.
use devion.Prelude.{
  ℕ, zero, suc, ◌≡◌, refl, ap, ◌∙◌, inl, inr, String, Bool, true, false, none, some, is_nil, List,
  [], ◌∷◌, All-append, ◌===◌, ===_iff, ◌||◌, ◌&&◌, not, any, filter, ◌∈◌, mem-filter, All,
  All-of_mem, All-mem, any-of_mem, arith, Bool-cases, Option-cases,
}
use devion.Builder.Workflow.{WorkflowStep}
use devion.Builder.Execution.{
  Outcome, skipped, is_succeeded, Outcomes, set_outcome, did_succeed, has_failure, is_ready,
  Decision, skips, starts, throws, decide, condition_matches, end_of, start_all, settle_all,
  rejection, delete_all, RunResult, finished, started_steps, run_rounds,
}
use devion.Builder.Execution.Rounds.{
  Decision-cases, has_failure-filter, start_all-clean, settle_all-clean, delete_all-All,
}

abbrev pub on_failure : WorkflowStep → Bool
on_failure s = elim s.condition [ none ↦ false | some c ↦ c === "failure()" ]

-- A success belongs to a step that does not wait for a failure.
abbrev pub is_justified : List WorkflowStep → String → Outcome → Bool
is_justified steps k o = not (is_succeeded o) || any (λ s. (s.id === k) && not (on_failure s)) steps

abbrev pub IsJustified : List WorkflowStep → Outcomes → Type 0
IsJustified steps os = All (λ (k, o). is_justified steps k o ≡ true) os

set_outcome-IsJustified :
    (steps : List WorkflowStep) (id : String) (o : Outcome) (os : Outcomes)
    → is_justified steps id o ≡ true
    → IsJustified steps os
    → IsJustified steps (set_outcome id o os)
set_outcome-IsJustified steps id o os h j =
    (h, All-of_mem _ _ (λ e m. All-mem _ e os j ((mem-filter _ e os).0 m).0))

-- While nothing has failed, a step that waits for a failure is skipped.
decide-on_failure :
    (s : WorkflowStep) (os : Outcomes)
    → has_failure os ≡ false
    → decide s os ≡ starts
    → on_failure s ≡ false
unfolding decide condition_matches
decide-on_failure s os h d = elim (Option-cases s.condition) [
  | inl e ↦ rw e refl
  | inr (c, e) ↦ elim (Bool-cases (c === "failure()")) [
    | inr f ↦ rw e f
    | inl t ↦
        let q : condition_matches s.condition os ≡ some false =
          ap (λ z. condition_matches z os) (e ∙ ap some ((===_iff c "failure()").0 t))
          ∙ ap some h in
        elim (Bool-cases (any (λ id. not (did_succeed os id)) s.needs)) [
          | inl n ↦ absurd (cc (rw (n, decide) at d))
          | inr n ↦ absurd (cc (rw (n, q, decide) at d))
        ]
  ]
]

-- The steps that start do not wait for a failure.
abbrev AreStarts : List WorkflowStep → List (WorkflowStep × Decision) → Type 0
AreStarts steps [] = Unit
AreStarts steps ((s, starts) ∷ started) =
    (s ∈ steps) × (on_failure s ≡ false) × AreStarts steps started
AreStarts steps ((s, _) ∷ started) = AreStarts steps started

start_all-AreStarts :
    (steps ready : List WorkflowStep) (os : Outcomes)
    → All (λ s. s ∈ steps) ready
    → has_failure os ≡ false
    → IsJustified steps os
    → AreStarts steps (start_all ready os).0 × IsJustified steps (start_all ready os).1
start_all-AreStarts steps [] os sub h j = (tt, j)
start_all-AreStarts steps (s ∷ ready) os (m, sub) h j = elim (Decision-cases (decide s os)) [
  | inl e ↦
      rw (e, start_all)
        (start_all-AreStarts steps ready (set_outcome s.id skipped os) sub
          (has_failure-filter s.id os h) (set_outcome-IsJustified steps s.id skipped os refl j))
  | inr (inl e) ↦
      let (a, b) = start_all-AreStarts steps ready os sub h j in
      rw (e, start_all) ((m, decide-on_failure s os h e, a), b)
  | inr (inr e) ↦ rw (e, start_all) (start_all-AreStarts steps ready os sub h j)
]

settle_all-IsJustified :
    (attempt : String → ℕ → Bool) (steps : List WorkflowStep)
    (started : List (WorkflowStep × Decision)) (os : Outcomes)
    → AreStarts steps started
    → IsJustified steps os
    → IsJustified steps (settle_all attempt started os)
settle_all-IsJustified attempt steps [] os a j = j
settle_all-IsJustified attempt steps ((s, skips) ∷ started) os a j =
    settle_all-IsJustified attempt steps started os a j
settle_all-IsJustified attempt steps ((s, throws) ∷ started) os a j =
    settle_all-IsJustified attempt steps started os a j
settle_all-IsJustified attempt steps ((s, starts) ∷ started) os (m, f, a) j =
    settle_all-IsJustified attempt steps started _ a (
      set_outcome-IsJustified steps s.id (end_of attempt s) os
        (ground (
          arith,
          any-of_mem (λ t. (t.id === s.id) && not (on_failure t)) s steps m
              (ground (arith, ===_iff s.id s.id)),
        ))
        j)

-- What a run that ends has for outcomes.
abbrev pub EndsJustified : List WorkflowStep → RunResult → Type 0
EndsJustified steps (finished os) = IsJustified steps os
EndsJustified steps _ = Unit

-- A step of the list that does not wait for a failure.
abbrev pub IsPlain : List WorkflowStep → WorkflowStep → Type 0
IsPlain steps s = (s ∈ steps) × (on_failure s ≡ false)

started_steps-IsPlain :
    (steps : List WorkflowStep) (started : List (WorkflowStep × Decision))
    → AreStarts steps started
    → All (IsPlain steps) (started_steps started)
started_steps-IsPlain steps [] a = tt
started_steps-IsPlain steps ((s, skips) ∷ started) a = started_steps-IsPlain steps started a
started_steps-IsPlain steps ((s, throws) ∷ started) a = started_steps-IsPlain steps started a
started_steps-IsPlain steps ((s, starts) ∷ started) (m, f, a) =
    ((m, f), started_steps-IsPlain steps started a)

pub run_rounds-EndsJustified :
    (attempt : String → ℕ → Bool) (aborted : ℕ → Bool) (steps : List WorkflowStep) (fuel round : ℕ)
    (pending : List WorkflowStep) (os : Outcomes)
    → All (λ s. s ∈ steps) pending
    → has_failure os ≡ false
    → IsJustified steps os
    → All (IsPlain steps) (run_rounds attempt aborted fuel round pending os).0
      × EndsJustified steps (run_rounds attempt aborted fuel round pending os).1
unfolding run_rounds
run_rounds-EndsJustified attempt aborted steps zero round pending os sub h j = (tt, tt)
run_rounds-EndsJustified attempt aborted steps (suc fuel) round [] os sub h j = (tt, j)
run_rounds-EndsJustified attempt aborted steps (suc fuel) round (p ∷ ps) os sub h j =
    let ready : List WorkflowStep = filter (is_ready os) (p ∷ ps) in
    elim (Bool-cases (aborted round)) [
      | inl e ↦ rw (e, run_rounds) (tt, tt)
      | inr e ↦ elim (Bool-cases (is_nil ready)) [
        | inl n ↦ rw (e, n, run_rounds) (tt, tt)
        | inr n ↦
            let (a, b) =
              start_all-AreStarts steps ready os
                (All-of_mem _ ready
                  (λ s m. All-mem _ s (p ∷ ps) sub ((mem-filter (is_ready os) s (p ∷ ps)).0 m).0))
                h j in
            let plain = started_steps-IsPlain steps (start_all ready os).0 a in
            elim (Option-cases (rejection attempt (start_all ready os).0)) [
              | inr (id, q) ↦ rw (e, n, q, run_rounds) (plain, tt)
              | inl q ↦
                  let (more, end) =
                    run_rounds-EndsJustified attempt aborted steps fuel (suc round)
                      (delete_all ready (p ∷ ps))
                      (settle_all attempt (start_all ready os).0 (start_all ready os).1)
                      (delete_all-All _ ready (p ∷ ps) sub)
                      (settle_all-clean attempt (start_all ready os).0 _ q
                        (start_all-clean ready os h))
                      (settle_all-IsJustified attempt steps (start_all ready os).0 _ a b) in
                  rw (e, n, q, run_rounds) (All-append _ _ _ plain more, end)
            ]
      ]
    ]
