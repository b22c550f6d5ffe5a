-- ===== src/Builder/Execution/Conditions.antt =====
-- What becomes of a step that waits for a failure.
use devion.Prelude.{
  any-All, ℕ, ◌<◌, ◌≡◌, refl, ap, sym, ◌∙◌, subst, ◌⊎◌, inl, inr, String, Bool, true, false, some,
  List, [], ◌∷◌, All-weaken, ◌===◌, ===_iff, ◌&&◌, not, any, length, ◌∈◌, All, All-of_mem, All-mem,
  any-witness, any-mem, arith, Bool-cases,
}
use devion.Control.Store.Rows.{AllApart-mem}
use devion.Builder.Workflow.{WorkflowStep, validate_graph}
use devion.Builder.Workflow.Sets.{===_comm}
use devion.Builder.Workflow.Entries.{same_step, any_none}
use devion.Builder.Workflow.Valid.{IsValid, validate_graph_iff}
use devion.Builder.Execution.{
  Outcome, succeeded, failed, skipped, is_failed, Outcomes, outcome_of, has_outcome, has_failure,
  RunResult, finished, build_cancelled, deadlock, exhausted, rejected, run_rounds, run_graph,
}
use devion.Builder.Execution.Justified.{
  on_failure, is_justified, IsJustified, EndsJustified, IsPlain, run_rounds-EndsJustified,
}
use devion.Builder.Execution.Progress.{IsEnd, run_graph-IsEnd, pending_of-append}

outcome_of-cases :
    (os : Outcomes) (id : String)
    → has_outcome os id ≡ true
    → (o : Outcome) × (outcome_of os id ≡ some o) × ((id, o) ∈ os)
outcome_of-cases [] id h = absurd (cc h)
outcome_of-cases ((k, o) ∷ os) id h = elim (Bool-cases (k === id)) [
  | inl e ↦ (o, rw e refl, inl (ap (λ z. (z, o)) (sym ((===_iff k id).0 e))))
  | inr e ↦ let (p, q, m) = outcome_of-cases os id (ground arith) in (p, rw e q, inr m)
]

Outcome-cases : (o : Outcome) → (o ≡ skipped) ⊎ ((o ≡ failed) ⊎ (o ≡ succeeded))
Outcome-cases skipped = inl refl
Outcome-cases failed = inr (inl refl)
Outcome-cases succeeded = inr (inr refl)

-- From the pending steps of a checked workflow its steps run.
run_graph-EndsJustified :
    (attempt : String → ℕ → Bool) (aborted : ℕ → Bool) (steps : List WorkflowStep) (fuel : ℕ)
    → IsValid steps
    → All (IsPlain steps) (run_graph attempt aborted fuel steps).0
      × EndsJustified steps (run_graph attempt aborted fuel steps).1
unfolding run_graph
run_graph-EndsJustified attempt aborted steps fuel v =
    subst
      (λ z.
        All (IsPlain steps) (run_rounds attempt aborted fuel 0 z []).0
        × EndsJustified steps (run_rounds attempt aborted fuel 0 z []).1)
      (sym (pending_of-append [] steps v.0 (any_none steps)))
      (run_rounds-EndsJustified attempt aborted steps fuel 0 steps []
        (All-of_mem _ steps (λ t n. n)) refl tt)

-- Of the steps of a checked workflow those of one identity are one.
same_plain :
    (steps : List WorkflowStep) (s t : WorkflowStep)
    → IsValid steps
    → s ∈ steps
    → s.condition ≡ some "failure()"
    → IsPlain steps t
    → (t.id === s.id) ≡ false
same_plain steps s t v m c (i, f) = elim (Bool-cases (t.id === s.id)) [
  | inr n ↦ n
  | inl e ↦
      let same : s ≡ t =
        AllApart-mem same_step (λ a b. ===_comm a.id b.id) steps s t v.0 m i
          (ground (arith, ===_iff s.id t.id, ===_iff t.id s.id)) in
      let g : on_failure t ≡ true = ap on_failure (sym same) ∙ rw c refl in absurd (cc (g, f))
]

finished-skipped :
    (steps : List WorkflowStep) (s : WorkflowStep) (os : Outcomes)
    → IsValid steps
    → s ∈ steps
    → s.condition ≡ some "failure()"
    → All (λ t. has_outcome os t.id ≡ true) steps
    → has_failure os ≡ false
    → IsJustified steps os
    → outcome_of os s.id ≡ some skipped
finished-skipped steps s os v m c all clean j =
    let (o, q, n) = outcome_of-cases os s.id (All-mem _ s steps all m) in
    let k : is_justified steps s.id o ≡ true = All-mem _ (s.id, o) os j n in
    elim (Outcome-cases o) [
      | inl r ↦ q ∙ ap some r
      | inr (inl r) ↦ absurd (any-mem (λ (i, p). is_failed p) (s.id, o) os clean n (ap is_failed r))
      | inr (inr r) ↦
          let (t, i, g) =
            any-witness (λ t. (t.id === s.id) && not (on_failure t)) steps (ground arith) in
          let apart = same_plain steps s t v m c (i, ground arith) in absurd (ground arith)
    ]

-- The step was skipped, if the run comes to outcomes.
abbrev pub EndsSkipped : WorkflowStep → RunResult → Type 0
EndsSkipped s (finished os) = outcome_of os s.id ≡ some skipped
EndsSkipped s _ = Unit

ends_skipped :
    (attempt : String → ℕ → Bool) (aborted : ℕ → Bool) (steps : List WorkflowStep)
    (s : WorkflowStep) (r : RunResult)
    → IsValid steps
    → s ∈ steps
    → s.condition ≡ some "failure()"
    → IsEnd attempt aborted steps r
    → EndsJustified steps r
    → EndsSkipped s r
ends_skipped attempt aborted steps s (finished os) v m c (all, clean) j =
    finished-skipped steps s os v m c all clean j
ends_skipped attempt aborted steps s build_cancelled v m c e j = tt
ends_skipped attempt aborted steps s deadlock v m c e j = tt
ends_skipped attempt aborted steps s exhausted v m c e j = tt
ends_skipped attempt aborted steps s (rejected id) v m c e j = tt

-- A step of a checked workflow that is to run on a failure, by the condition `failure()`, is never
-- run: however the run of the workflow ends, also where another step rejects it or it is aborted, no
-- round starts the step, and where it ends with outcomes, the step's is that it was skipped.
pub run_graph_on_failure :
    (attempt : String → ℕ → Bool) (aborted : ℕ → Bool) (steps : List WorkflowStep) (fuel : ℕ)
    (s : WorkflowStep)
    → validate_graph steps ≡ some []
    → length steps < fuel
    → s ∈ steps
    → s.condition ≡ some "failure()"
    → (any (λ t. t.id === s.id) (run_graph attempt aborted fuel steps).0 ≡ false)
      × EndsSkipped s (run_graph attempt aborted fuel steps).1
run_graph_on_failure attempt aborted steps fuel s h l m c =
    let v : IsValid steps = (validate_graph_iff steps).0 h in
    let (plain, end) = run_graph-EndsJustified attempt aborted steps fuel v in
    (
      any-All _ _ (All-weaken _ _ _ (λ t k. same_plain steps s t v m c k) plain),
      ends_skipped attempt aborted steps s _ v m c (run_graph-IsEnd attempt aborted steps fuel h l)
          end,
    )
