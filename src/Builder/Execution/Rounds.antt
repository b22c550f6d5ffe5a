-- ===== src/Builder/Execution/Rounds.antt =====
-- A round of ready steps: what it adds to the outcomes and takes from the pending steps.
use devion.Prelude.{
  is_nil, All, All-of_mem, All-mem, mem-filter, ℕ, ◌<◌, ◌≤◌, ◌≡◌, refl, ◌∙◌, ◌⊎◌, inl, inr, String,
  Bool, true, false, none, List, [], ◌∷◌, ◌===◌, ===_iff, ◌||◌, ◌&&◌, not, filter, length,
  length-filter, arith, Bool-cases,
}
use devion.Builder.Workflow.{WorkflowStep}
use devion.Builder.Workflow.Entries.{is_step}
use devion.Builder.Execution.{
  Outcome, skipped, Outcomes, set_outcome, has_outcome, has_failure, Decision, skips, starts,
  throws, decide, end_of, delete_step, start_all, settle_all, rejection, delete_all,
}

has_outcome-filter :
    (id x : String) (os : Outcomes)
    → ((id === x) || has_outcome (filter (λ (k, o). not (k === id)) os) x)
      ≡ ((id === x) || has_outcome os x)
has_outcome-filter id x [] = refl
has_outcome-filter id x ((k, o) ∷ os) =
    ground (arith, has_outcome-filter id x os, ===_iff id x, ===_iff k id, ===_iff k x)

pub has_outcome-set_outcome :
    (id : String) (o : Outcome) (os : Outcomes) (x : String)
    → has_outcome (set_outcome id o os) x ≡ ((id === x) || has_outcome os x)
has_outcome-set_outcome id o os x = has_outcome-filter id x os

pub has_failure-filter :
    (id : String) (os : Outcomes)
    → has_failure os ≡ false
    → has_failure (filter (λ (k, o). not (k === id)) os) ≡ false
has_failure-filter id [] h = refl
has_failure-filter id ((k, o) ∷ os) h = ground (arith, has_failure-filter id os)

pub Decision-cases : (d : Decision) → (d ≡ skips) ⊎ ((d ≡ starts) ⊎ (d ≡ throws))
Decision-cases skips = inl refl
Decision-cases starts = inr (inl refl)
Decision-cases throws = inr (inr refl)

-- Is a step of the identity started?
abbrev pub is_started : List (WorkflowStep × Decision) → String → Bool
is_started [] x = false
is_started ((s, starts) ∷ started) x = (s.id === x) || is_started started x
is_started ((s, _) ∷ started) x = is_started started x

pub start_all-kept :
    (ready : List WorkflowStep) (os : Outcomes) (x : String)
    → has_outcome os x ≡ true
    → has_outcome (start_all ready os).1 x ≡ true
start_all-kept [] os x h = h
start_all-kept (s ∷ ready) os x h = elim (Decision-cases (decide s os)) [
  | inl e ↦
      rw (e, start_all)
        (start_all-kept ready (set_outcome s.id skipped os) x
          (ground (arith, has_outcome-set_outcome s.id skipped os x)))
  | inr (inl e) ↦ rw (e, start_all) (start_all-kept ready os x h)
  | inr (inr e) ↦ rw (e, start_all) (start_all-kept ready os x h)
]

-- Where nothing is rejected, a ready step is started or has its outcome.
pub start_all-covers :
    (attempt : String → ℕ → Bool) (ready : List WorkflowStep) (os : Outcomes) (x : String)
    → rejection attempt (start_all ready os).0 ≡ none
    → is_step ready x ≡ true
    → (is_started (start_all ready os).0 x || has_outcome (start_all ready os).1 x) ≡ true
start_all-covers attempt [] os x r h = absurd (cc h)
start_all-covers attempt (s ∷ ready) os x r h = elim (Decision-cases (decide s os)) [
  | inl e ↦
      rw (e, start_all)
        (elim (Bool-cases (s.id === x)) [
          | inl q ↦ ground (
            arith,
            start_all-kept ready (set_outcome s.id skipped os) x
                (ground (arith, has_outcome-set_outcome s.id skipped os x)),
          )
          | inr q ↦
              start_all-covers attempt ready (set_outcome s.id skipped os) x
                (rw (e, start_all) at r) (ground arith)
        ])
  | inr (inl e) ↦
      let k : rejection attempt ((s, starts) ∷ (start_all ready os).0) ≡ none =
        rw (e, start_all) at r in
      rw (e, start_all) (ground (arith, start_all-covers attempt ready os x))
  | inr (inr e) ↦ absurd (cc (rw (e, start_all) at r))
]

pub start_all-clean :
    (ready : List WorkflowStep) (os : Outcomes)
    → has_failure os ≡ false
    → has_failure (start_all ready os).1 ≡ false
start_all-clean [] os h = h
start_all-clean (s ∷ ready) os h = elim (Decision-cases (decide s os)) [
  | inl e ↦
      rw (e, start_all)
        (start_all-clean ready (set_outcome s.id skipped os) (has_failure-filter s.id os h))
  | inr (inl e) ↦ rw (e, start_all) (start_all-clean ready os h)
  | inr (inr e) ↦ rw (e, start_all) (start_all-clean ready os h)
]

pub settle_all-has :
    (attempt : String → ℕ → Bool) (started : List (WorkflowStep × Decision)) (os : Outcomes)
    (x : String)
    → has_outcome (settle_all attempt started os) x ≡ (is_started started x || has_outcome os x)
settle_all-has attempt [] os x = refl
settle_all-has attempt ((s, skips) ∷ started) os x = settle_all-has attempt started os x
settle_all-has attempt ((s, throws) ∷ started) os x = settle_all-has attempt started os x
settle_all-has attempt ((s, starts) ∷ started) os x =
    settle_all-has attempt started _ x
    ∙ ground (arith, has_outcome-set_outcome s.id (end_of attempt s) os x)

pub settle_all-clean :
    (attempt : String → ℕ → Bool) (started : List (WorkflowStep × Decision)) (os : Outcomes)
    → rejection attempt started ≡ none
    → has_failure os ≡ false
    → has_failure (settle_all attempt started os) ≡ false
settle_all-clean attempt [] os r h = h
settle_all-clean attempt ((s, skips) ∷ started) os r h = settle_all-clean attempt started os r h
settle_all-clean attempt ((s, throws) ∷ started) os r h = absurd (cc r)
settle_all-clean attempt ((s, starts) ∷ started) os r h =
    settle_all-clean attempt started _ (ground arith) (ground (arith, has_failure-filter s.id os h))

delete_step-length :
    (id : String) (pending : List WorkflowStep)
    → is_step pending id ≡ true
    → length (delete_step id pending) < length pending
delete_step-length id [] h = absurd (cc h)
delete_step-length id (s ∷ pending) h =
    ground (arith, delete_step-length id pending, length-filter (λ t. not (t.id === id)) pending)

delete_all-length :
    (ready pending : List WorkflowStep) → length (delete_all ready pending) ≤ length pending
delete_all-length [] pending = omega arith
delete_all-length (s ∷ ready) pending = omega (
  arith,
  delete_all-length ready (delete_step s.id pending),
  length-filter (λ t. not (t.id === s.id)) pending,
)

pub delete_all-shorter :
    (ready pending : List WorkflowStep)
    → is_nil ready ≡ false
    → All (λ s. is_step pending s.id ≡ true) ready
    → length (delete_all ready pending) < length pending
delete_all-shorter [] pending n h = absurd (cc n)
delete_all-shorter (s ∷ ready) pending n (k, h) =
    omega
      (arith, delete_all-length ready (delete_step s.id pending), delete_step-length s.id pending k)

pub delete_all-All :
    (P : WorkflowStep → Type 0) (ready pending : List WorkflowStep)
    → All P pending
    → All P (delete_all ready pending)
delete_all-All P [] pending h = h
delete_all-All P (s ∷ ready) pending h =
    delete_all-All P ready (delete_step s.id pending)
      (All-of_mem P _ (λ x m. All-mem P x pending h ((mem-filter _ x pending).0 m).0))

is_step-delete_step :
    (id : String) (pending : List WorkflowStep) (x : String)
    → is_step (delete_step id pending) x ≡ (is_step pending x && not (id === x))
is_step-delete_step id [] x = refl
is_step-delete_step id (s ∷ pending) x =
    ground (arith, is_step-delete_step id pending x, ===_iff s.id id, ===_iff s.id x, ===_iff id x)

pub is_step-delete_all :
    (ready pending : List WorkflowStep) (x : String)
    → is_step pending x ≡ true
    → (is_step (delete_all ready pending) x || is_step ready x) ≡ true
is_step-delete_all [] pending x h = ground arith
is_step-delete_all (s ∷ ready) pending x h = ground (
  arith,
  is_step-delete_step s.id pending x,
  is_step-delete_all ready (delete_step s.id pending) x,
)
