-- ===== src/Builder/Workflow/Valid.antt =====
-- What the checks on a workflow's steps accept.
use devion.Prelude.{
  ℕ, suc, ◌<◌, ◌≡◌, refl, ap, sym, ◌∙◌, subst, inl, inr, ◌↔◌, String, true, some, List, [], ◌∷◌,
  ◌++◌, map, ◌===◌, ===_iff, length, All, All-weaken, All-of_mem, All-mem, ◌∈◌, Bool-cases,
}
use mathlib.Core.Option.{some-injective}
use devion.Control.Store.Rows.{AllApart}
use devion.Builder.Workflow.{
  WorkflowStep, GraphError, Search, contains, keys, needs_of, graph_of, ids_of, duplicates,
  unknowns, visit_keys, search_start, validate_graph,
}
use devion.Builder.Workflow.Total.{visit_keys-Returns, keys-has_key}
use devion.Builder.Workflow.Order.{IsOrder, visit_keys-Extends}
use devion.Builder.Workflow.Rank.{rank, rank-lt, visit_keys-IsSilent}
use devion.Builder.Workflow.Entries.{
  same_step, is_step, entry, graph_of-append, graph_of-needs, has_key-entry, duplicates_iff,
  ids_of-is_step, unknowns_iff, append-nil, any_none,
}

-- Every step needs only steps of a lower rank: there is no cycle.
abbrev pub IsRanked : (String → ℕ) → List WorkflowStep → Type 0
IsRanked r steps = All (λ s. All (λ d. r d < r s.id) s.needs) steps

-- No two steps have one identity, every need is a step, and there is no cycle.
abbrev pub IsValid : List WorkflowStep → Type 0
IsValid steps =
    AllApart same_step steps
    × All (λ s. All (λ d. is_step steps d ≡ true) s.needs) steps
    × ((r : String → ℕ) × IsRanked r steps)

-- The plain errors, with which the search starts.
abbrev plain_errors : List WorkflowStep → List GraphError
plain_errors steps = duplicates 0 [] steps ++ unknowns 0 (ids_of [] steps) steps

ids-is_step :
    (steps : List WorkflowStep) (d : String) → contains (ids_of [] steps) d ≡ is_step steps d
ids-is_step steps d = ids_of-is_step [] steps d

plain_errors_iff :
    (steps : List WorkflowStep)
    → (plain_errors steps ≡ [])
      ↔ (AllApart same_step steps × All (λ s. All (λ d. is_step steps d ≡ true) s.needs) steps)
plain_errors_iff steps = (
  λ e.
      let (a, b) = append-nil _ (unknowns 0 (ids_of [] steps) steps) e in
      (
        ((duplicates_iff 0 [] steps).0 a).1,
        All-weaken _ _ steps (λ s. All-weaken _ _ s.needs (λ d h. sym (ids-is_step steps d) ∙ h))
            ((unknowns_iff 0 (ids_of [] steps) steps).0 b),
      ),
  λ (a, b). rw ((duplicates_iff 0 [] steps).1 (any_none steps, a)) (
      (unknowns_iff 0 (ids_of [] steps) steps).1
        (All-weaken _ _ steps (λ s. All-weaken _ _ s.needs (λ d h. ids-is_step steps d ∙ h)) b)),
)

graph-entries :
    (steps : List WorkflowStep) → AllApart same_step steps → graph_of [] steps ≡ map entry steps
graph-entries steps a = graph_of-append [] steps a (any_none steps)

-- The run of the search.
searched :
    (steps : List WorkflowStep)
    → (t : Search) × (visit_keys
          (suc (length (keys (graph_of [] steps))))
          (graph_of [] steps)
          (keys (graph_of [] steps))
          (search_start (plain_errors steps))
        ≡ some t)
      × (validate_graph steps ≡ some t.errors)
unfolding validate_graph
searched steps =
    let graph = graph_of [] steps in
    let (t, m, q) =
      visit_keys-Returns graph (keys graph) (search_start (plain_errors steps)) (keys-has_key graph)
        refl in
    (t, m, rw (m, validate_graph) refl)

-- The checks on a workflow's steps always come to an end.
pub validate_graph_total :
    (steps : List WorkflowStep) → (errors : List GraphError) × (validate_graph steps ≡ some errors)
validate_graph_total steps = let (t, m, e) = searched steps in (t.errors, e)

All-keys :
    (P : String → Type 0) (steps : List WorkflowStep)
    → All P (keys (map entry steps))
    → All (λ s. P s.id) steps
All-keys P [] h = tt
All-keys P (s ∷ steps) (p, h) = (p, All-keys P steps h)

IsRanked-of_order :
    (steps : List WorkflowStep) (order : List String)
    → AllApart same_step steps
    → All (λ s. All (λ d. is_step steps d ≡ true) s.needs) steps
    → IsOrder (map entry steps) order
    → All (λ id. contains order id ≡ true) (keys (map entry steps))
    → IsRanked (rank order) steps
IsRanked-of_order steps order apart known o all = All-of_mem _ steps (λ s m.
    All-of_mem _ s.needs (λ d n.
      rank-lt (map entry steps) order s.id d o (All-mem _ s steps (All-keys _ steps all) m)
        (subst (λ l. d ∈ l) (sym (All-mem _ s steps (graph_of-needs steps apart) m)) n)
        (has_key-entry steps d ∙ All-mem _ d s.needs (All-mem _ s steps known m) n)))

IsValid-of_clean : (steps : List WorkflowStep) → validate_graph steps ≡ some [] → IsValid steps
IsValid-of_clean steps h =
    let (t, m, e) = searched steps in
    let (found, all) =
      visit_keys-Extends _ (graph_of [] steps) (keys (graph_of [] steps)) _ t m
        (some-injective _ _ (sym e ∙ h)) in
    let (apart, known) = (plain_errors_iff steps).0 found.clean in
    let g : graph_of [] steps ≡ map entry steps = graph-entries steps apart in
    (
      apart,
      known,
      (
        rank t.visited,
        IsRanked-of_order steps t.visited apart known
            (subst (λ z. IsOrder z t.visited) g (found.order tt))
            (subst (λ z. All (λ id. contains t.visited id ≡ true) (keys z)) g all),
      ),
    )

needs_of-ranked :
    (r : String → ℕ) (steps : List WorkflowStep)
    → IsRanked r steps
    → (id : String) → All (λ d. r d < r id) (needs_of (map entry steps) id)
needs_of-ranked r [] h id = tt
needs_of-ranked r (s ∷ steps) (k, h) id = elim (Bool-cases (s.id === id)) [
  | inl e ↦ rw e (subst (λ z. All (λ d. r d < r z) s.needs) ((===_iff s.id id).0 e) k)
  | inr e ↦ rw e (needs_of-ranked r steps h id)
]

clean-of_valid : (steps : List WorkflowStep) → IsValid steps → validate_graph steps ≡ some []
clean-of_valid steps (apart, known, (r, ranked)) =
    let (t, m, e) = searched steps in
    let g : graph_of [] steps ≡ map entry steps = graph-entries steps apart in
    let (same, errors) =
      visit_keys-IsSilent (graph_of [] steps) r
        (subst (λ z. (id : String) → All (λ d. r d < r id) (needs_of z id)) (sym g)
          (needs_of-ranked r steps ranked))
        _ (keys (graph_of [] steps)) _ refl t m in
    e ∙ ap some (errors ∙ (plain_errors_iff steps).1 (apart, known))

-- The checks on a workflow's steps report nothing exactly where no two steps have one identity,
-- every need is a step, and the needs have no cycle: the steps have ranks of which those that a step
-- needs are lower than its own.
pub validate_graph_iff :
    (steps : List WorkflowStep) → (validate_graph steps ≡ some []) ↔ IsValid steps
validate_graph_iff steps = (IsValid-of_clean steps, clean-of_valid steps)
