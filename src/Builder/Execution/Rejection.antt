-- ===== src/Builder/Execution/Rejection.antt =====
-- Why the run of a workflow is rejected.
use mathlib.Core.Option.{some-injective}
use devion.Prelude.{
  ℕ, zero, suc, ◌+◌, ◌≤◌, ◌<◌, ◌==◌, ◌≡◌, refl, ap, ◌∙◌, ◌⊎◌, inl, inr, String, Bool, true, false,
  Option, none, some, List, [], ◌∷◌, ◌===◌, not, any, ◌∈◌, All, arith, Bool-cases, Option-cases,
}
use devion.Builder.Workflow.{WorkflowStep}
use devion.Builder.Execution.{
  skipped, is_failed, Outcomes, set_outcome, did_succeed, condition_matches, starts, throws, decide,
  try_attempts, end_of, start_all, rejection,
}
use devion.Builder.Execution.Rounds.{Decision-cases}

-- The conditions that a step may have.
abbrev pub conditions : List String
conditions = "" ∷ "success()" ∷ "always()" ∷ "failure()" ∷ "false" ∷ "true" ∷ []

-- A step rejects its run where each of its attempts fails and the workflow does not go on without
-- it, or where its condition is none of those.
abbrev pub HasRejected : (String → ℕ → Bool) → WorkflowStep → Type 0
HasRejected attempt s =
    ((s.continue_on_error ≡ false) × ((n : ℕ) → 1 ≤ n → n ≤ s.retries + 1 → attempt s.id n ≡ false))
    ⊎ ((c : String) × (s.condition ≡ some c) × (any (λ k. c === k) conditions ≡ false))

-- Attempts of which none succeeds have all failed.
try_attempts-none :
    (attempt : ℕ → Bool) (left first : ℕ)
    → try_attempts attempt left first ≡ false
    → (n : ℕ) → first ≤ n
    → n < first + left
    → attempt n ≡ false
try_attempts-none attempt zero first h n lo hi = absurd (omega arith)
try_attempts-none attempt (suc left) first h n lo hi = elim (Bool-cases (attempt first)) [
  | inl e ↦ absurd (cc (rw e at h))
  | inr e ↦ elim (Bool-cases (n == first)) [
    | inl t ↦ let q : n ≡ first = ground arith in ap attempt q ∙ e
    | inr f ↦ try_attempts-none attempt left (suc first) (rw e at h) n (ground arith) (omega arith)
  ]
]

end_of-failed :
    (attempt : String → ℕ → Bool) (s : WorkflowStep)
    → is_failed (end_of attempt s) ≡ true
    → HasRejected attempt s
end_of-failed attempt s h = elim (Bool-cases (try_attempts (attempt s.id) (s.retries + 1) 1)) [
  | inl e ↦ absurd (cc (rw e at h))
  | inr e ↦ elim (Bool-cases s.continue_on_error) [
    | inl t ↦ absurd (cc (rw (e, t) at h))
    | inr f ↦
        inl (f, λ n lo hi. try_attempts-none (attempt s.id) (s.retries + 1) 1 e n lo (omega arith))
  ]
]

condition_matches-none :
    (condition : Option String) (os : Outcomes)
    → condition_matches condition os ≡ none
    → (c : String) × (condition ≡ some c) × (any (λ k. c === k) conditions ≡ false)
unfolding condition_matches
condition_matches-none none os h = absurd (cc h)
condition_matches-none (some c) os h = (c, refl, ground arith)

decide-throws :
    (attempt : String → ℕ → Bool) (s : WorkflowStep) (os : Outcomes)
    → decide s os ≡ throws
    → HasRejected attempt s
unfolding decide
decide-throws attempt s os h = elim (Bool-cases (any (λ id. not (did_succeed os id)) s.needs)) [
  | inl e ↦ absurd (cc (rw (e, decide) at h))
  | inr e ↦ elim (Option-cases (condition_matches s.condition os)) [
    | inl n ↦ inr (condition_matches-none s.condition os n)
    | inr (true, q) ↦ absurd (cc (rw (e, q, decide) at h))
    | inr (false, q) ↦ absurd (cc (rw (e, q, decide) at h))
  ]
]

-- A rejection is by a step of the round that has rejected.
pub rejection-HasRejected :
    (attempt : String → ℕ → Bool) (steps ready : List WorkflowStep) (os : Outcomes) (id : String)
    → All (λ s. s ∈ steps) ready
    → rejection attempt (start_all ready os).0 ≡ some id
    → (s : WorkflowStep) × (s ∈ steps) × (s.id ≡ id) × HasRejected attempt s
rejection-HasRejected attempt steps [] os id sub h = absurd (cc h)
rejection-HasRejected attempt steps (s ∷ ready) os id (m, sub) h =
    elim (Decision-cases (decide s os)) [
      | inl e ↦
          rejection-HasRejected attempt steps ready (set_outcome s.id skipped os) id sub
            (rw (e, start_all) at h)
      | inr (inr e) ↦
          let k : rejection attempt ((s, throws) ∷ (start_all ready os).0) ≡ some id =
            rw (e, start_all) at h in
          (s, m, some-injective _ _ k, decide-throws attempt s os e)
      | inr (inl e) ↦
          let k : rejection attempt ((s, starts) ∷ (start_all ready os).0) ≡ some id =
            rw (e, start_all) at h in
          elim (Bool-cases (is_failed (end_of attempt s))) [
            | inl t ↦ (s, m, some-injective _ _ (rw t at k), end_of-failed attempt s t)
            | inr f ↦ rejection-HasRejected attempt steps ready os id sub (rw f at k)
          ]
    ]
