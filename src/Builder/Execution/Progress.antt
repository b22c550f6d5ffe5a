-- ===== src/Builder/Execution/Progress.antt =====
-- A checked workflow runs to an end.
use devion.Prelude.{
  append_nil, append_assoc, ℕ, zero, suc, ◌<◌, ◌≤◌, ◌≡◌, refl, ap, sym, ◌∙◌, subst, inl, inr,
  String, Bool, true, false, none, some, leb, is_nil, List, [], ◌∷◌, ◌++◌, ◌===◌, ===_iff, ◌||◌,
  any, all, filter, length, ◌∈◌, mem-filter, All, All-of_mem, All-mem, All-weaken, any-witness,
  any-of_mem, any_ext, any-append, arith, Bool-cases, Option-cases,
}
use devion.Control.Store.Rows.{AllApart}
use devion.Builder.Workflow.{WorkflowStep, validate_graph}
use devion.Builder.Workflow.Entries.{is_step, same_step, any_none, any_or}
use devion.Builder.Workflow.Valid.{IsValid, validate_graph_iff}
use devion.Builder.Execution.{
  Outcomes, has_outcome, has_failure, is_ready, start_all, settle_all, rejection, delete_all,
  RunResult, finished, build_cancelled, deadlock, exhausted, rejected, run_rounds, run_graph,
  set_step, pending_of,
}
use devion.Builder.Execution.Rejection.{HasRejected, rejection-HasRejected}
use devion.Builder.Execution.Rounds.{
  start_all-kept, start_all-covers, start_all-clean, settle_all-has, settle_all-clean,
  delete_all-shorter, delete_all-All, is_step-delete_all,
}

-- How the run of these steps may end: with an outcome for each of them, none a failure, by the
-- signal in a round, or by one of the steps, which rejects it.
abbrev pub IsEnd : (String → ℕ → Bool) → (ℕ → Bool) → List WorkflowStep → RunResult → Type 0
IsEnd attempt aborted steps (finished outcomes) =
    All (λ s. has_outcome outcomes s.id ≡ true) steps × (has_failure outcomes ≡ false)
IsEnd attempt aborted steps build_cancelled = (round : ℕ) × (aborted round ≡ true)
IsEnd attempt aborted steps (rejected id) =
    (s : WorkflowStep) × (s ∈ steps) × (s.id ≡ id) × HasRejected attempt s
IsEnd attempt aborted steps deadlock = ⊥
IsEnd attempt aborted steps exhausted = ⊥

-- Of some steps one has the least rank.
least :
    (r : String → ℕ) (p : WorkflowStep) (ps : List WorkflowStep)
    → (q : WorkflowStep) × (q ∈ (p ∷ ps)) × All (λ s. r q.id ≤ r s.id) (p ∷ ps)
least r p [] = (p, inl refl, (omega arith, tt))
least r p (s ∷ ps) =
    let (q, m, h) = least r s ps in
    elim (Bool-cases (leb (r p.id) (r q.id))) [
      | inl e ↦ (p, inl refl, (omega arith, All-weaken _ _ (s ∷ ps) (λ x k. ground arith) h))
      | inr e ↦ (q, inr m, (ground arith, h))
    ]

is_nil-mem : (s : WorkflowStep) (xs : List WorkflowStep) → s ∈ xs → is_nil xs ≡ false
is_nil-mem s [] m = absurd m
is_nil-mem s (x ∷ xs) m = refl

-- Every step is pending or has its outcome.
abbrev Covers : List WorkflowStep → List WorkflowStep → Outcomes → Type 0
Covers steps pending os = All (λ s. (is_step pending s.id || has_outcome os s.id) ≡ true) steps

all-of_All : (p : String → Bool) (xs : List String) → All (λ x. p x ≡ true) xs → all p xs ≡ true
all-of_All p [] h = refl
all-of_All p (x ∷ xs) (k, h) = ground (arith, all-of_All p xs h)

-- Among pending steps of a checked workflow one is ready.
some_ready :
    (steps : List WorkflowStep)
    → IsValid steps
    → (p : WorkflowStep) (ps : List WorkflowStep) (os : Outcomes) → All (λ s. s ∈ steps) (p ∷ ps)
    → Covers steps (p ∷ ps) os
    → is_nil (filter (is_ready os) (p ∷ ps)) ≡ false
some_ready steps (apart, known, (r, ranked)) p ps os sub cov =
    let (q, m, h) = least r p ps in
    let k : q ∈ steps = All-mem _ q (p ∷ ps) sub m in
    let ok : is_ready os q ≡ true = all-of_All _ q.needs (
      All-of_mem _ q.needs (λ d n.
        let (s, j, e) =
          any-witness (λ x. x.id === d) steps (All-mem _ d q.needs (All-mem _ q steps known k) n) in
        let c : (is_step (p ∷ ps) d || has_outcome os d) ≡ true =
          subst (λ x. (is_step (p ∷ ps) x || has_outcome os x) ≡ true) ((===_iff s.id d).0 e)
            (All-mem _ s steps cov j) in
        elim (Bool-cases (is_step (p ∷ ps) d)) [
          | inr f ↦ ground arith
          | inl f ↦
              let (t, i, g) = any-witness (λ x. x.id === d) (p ∷ ps) f in
              let low : r d < r q.id = All-mem _ d q.needs (All-mem _ q steps ranked k) n in
              let high : r q.id ≤ r t.id = All-mem _ t (p ∷ ps) h i in
              absurd (omega (arith, ap r ((===_iff t.id d).0 g)))
        ])) in
    is_nil-mem q _ ((mem-filter (is_ready os) q (p ∷ ps)).1 (m, ok))

round-Covers :
    (attempt : String → ℕ → Bool) (steps ready pending : List WorkflowStep) (os : Outcomes)
    → Covers steps pending os
    → rejection attempt (start_all ready os).0 ≡ none
    → Covers steps
        (delete_all ready pending)
        (settle_all attempt (start_all ready os).0 (start_all ready os).1)
round-Covers attempt steps ready pending os cov none_rejected =
    All-weaken _ _ steps
      (λ s h.
        let has = settle_all-has attempt (start_all ready os).0 (start_all ready os).1 s.id in
        elim (Bool-cases (has_outcome os s.id)) [
          | inl e ↦ let k = start_all-kept ready os s.id e in ground arith
          | inr e ↦
              let k = is_step-delete_all ready pending s.id (ground arith) in
              elim (Bool-cases (is_step ready s.id)) [
                | inl i ↦
                    let c = start_all-covers attempt ready os s.id none_rejected i in ground arith
                | inr i ↦ ground arith
              ]
        ])
      cov

run_rounds-IsEnd :
    (attempt : String → ℕ → Bool) (aborted : ℕ → Bool) (steps : List WorkflowStep)
    → IsValid steps
    → (fuel round : ℕ) (pending : List WorkflowStep) (os : Outcomes) → All (λ s. s ∈ steps) pending
    → Covers steps pending os
    → has_failure os ≡ false
    → length pending < fuel
    → IsEnd attempt aborted steps (run_rounds attempt aborted fuel round pending os).1
unfolding run_rounds
run_rounds-IsEnd attempt aborted steps v zero round pending os sub cov clean l =
    absurd (omega arith)
run_rounds-IsEnd attempt aborted steps v (suc fuel) round [] os sub cov clean l = (cov, clean)
run_rounds-IsEnd attempt aborted steps v (suc fuel) round (p ∷ ps) os sub cov clean l =
    elim (Bool-cases (aborted round)) [
      | inl e ↦ rw (e, run_rounds) (round, e)
      | inr e ↦
          let ready : List WorkflowStep = filter (is_ready os) (p ∷ ps) in
          let full : is_nil ready ≡ false = some_ready steps v p ps os sub cov in
          elim (Option-cases (rejection attempt (start_all ready os).0)) [
            | inr (id, q) ↦
                rw (e, full, q, run_rounds)
                  (rejection-HasRejected attempt steps ready os id
                    (All-of_mem _ ready (λ s m.
                      All-mem _ s (p ∷ ps) sub ((mem-filter (is_ready os) s (p ∷ ps)).0 m).0))
                    q)
            | inl q ↦
                rw (e, full, q, run_rounds)
                  (run_rounds-IsEnd attempt aborted steps v fuel (suc round)
                    (delete_all ready (p ∷ ps))
                    (settle_all attempt (start_all ready os).0 (start_all ready os).1)
                    (delete_all-All _ ready (p ∷ ps) sub)
                    (round-Covers attempt steps ready (p ∷ ps) os cov q)
                    (settle_all-clean attempt (start_all ready os).0 _ q
                      (start_all-clean ready os clean))
                    (omega (
                      arith,
                      delete_all-shorter ready (p ∷ ps) full (
                          All-of_mem _ ready (λ s m.
                            any-of_mem (λ t. t.id === s.id) s (p ∷ ps)
                              ((mem-filter (is_ready os) s (p ∷ ps)).0 m).0
                              ((===_iff s.id s.id).1 refl))),
                    )))
          ]
    ]

set_step-absent :
    (s : WorkflowStep) (pending : List WorkflowStep)
    → is_step pending s.id ≡ false
    → set_step s pending ≡ pending ++ s ∷ []
set_step-absent s [] h = refl
set_step-absent s (p ∷ pending) h = ground (arith, set_step-absent s pending)

pub pending_of-append :
    (pending steps : List WorkflowStep)
    → AllApart same_step steps
    → any (λ s. is_step pending s.id) steps ≡ false
    → pending_of pending steps ≡ pending ++ steps
pending_of-append pending [] apart h = sym (append_nil pending)
pending_of-append pending (s ∷ steps) (f, apart) h =
    let fresh : any (λ x. is_step (pending ++ s ∷ []) x.id) steps ≡ false =
      any_ext steps (λ x. any-append (λ t. t.id === x.id) pending (s ∷ []))
      ∙ any_or (λ x. is_step pending x.id) (λ x. (s.id === x.id) || false) steps
      ∙ ground (
        arith,
        any_ext {p = λ x. (s.id === x.id) || false} {q = same_step s} steps (λ x. ground arith),
      ) in
    ap (λ z. pending_of z steps) (set_step-absent s pending (ground arith))
    ∙ pending_of-append (pending ++ s ∷ []) steps apart fresh
    ∙ append_assoc pending (s ∷ []) steps

-- A workflow that the checks accept never comes to a deadlock, and its run ends: in no more rounds
-- than it has steps, it has an outcome for each step, none of them a failure, or the signal is
-- aborted in a round, or one of the steps rejects it: every attempt of that step fails and it does
-- not continue on errors, or its condition is none of the supported ones.
pub run_graph-IsEnd :
    (attempt : String → ℕ → Bool) (aborted : ℕ → Bool) (steps : List WorkflowStep) (fuel : ℕ)
    → validate_graph steps ≡ some []
    → length steps < fuel
    → IsEnd attempt aborted steps (run_graph attempt aborted fuel steps).1
unfolding run_graph
run_graph-IsEnd attempt aborted steps fuel h l =
    let v : IsValid steps = (validate_graph_iff steps).0 h in
    subst (λ z. IsEnd attempt aborted steps (run_rounds attempt aborted fuel 0 z []).1)
      (sym (pending_of-append [] steps v.0 (any_none steps)))
      (run_rounds-IsEnd attempt aborted steps v fuel 0 steps [] (All-of_mem _ steps (λ s m. m))
        (All-of_mem _ steps (λ s m.
          ground (arith, any-of_mem (λ t. t.id === s.id) s steps m ((===_iff s.id s.id).1 refl))))
        refl l)
