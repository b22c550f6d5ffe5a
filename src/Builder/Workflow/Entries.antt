-- ===== src/Builder/Workflow/Entries.antt =====
-- The graph, the identities and the plain errors that the checks take from the steps.
use devion.Prelude.{
  append_nil, append_assoc, ℕ, suc, ◌≡◌, refl, ap, sym, ◌∙◌, subst, inl, inr, ◌↔◌, String, Bool,
  true, false, List, [], ◌∷◌, ◌++◌, map, ◌===◌, ===_iff, ◌||◌, any, any_ext, any-append, any-mem,
  All, All-of_mem, All-mem, arith, Bool-cases,
}
use devion.Control.Store.Rows.{AllApart}
use devion.Builder.Workflow.{
  WorkflowStep, Graph, contains, add, needs_of, has_key, set_needs, graph_of, ids_of, duplicates,
  unknown_needs, unknowns,
}
use devion.Builder.Workflow.Sets.{contains-add}

abbrev pub same_step : WorkflowStep → WorkflowStep → Bool
same_step s t = s.id === t.id

-- Some step has the identity.
abbrev pub is_step : List WorkflowStep → String → Bool
is_step steps id = any (λ s. s.id === id) steps

abbrev pub entry : WorkflowStep → String × List String
entry s = (s.id, s.needs)

has_key-append :
    (graph rest : Graph) (id : String)
    → has_key (graph ++ rest) id ≡ (has_key graph id || has_key rest id)
has_key-append graph rest id = any-append _ graph rest

set_needs-absent :
    (id : String) (needs : List String) (graph : Graph)
    → has_key graph id ≡ false
    → set_needs id needs graph ≡ graph ++ (id, needs) ∷ []
set_needs-absent id needs [] h = refl
set_needs-absent id needs ((k, ns) ∷ graph) h = ground (arith, set_needs-absent id needs graph)

pub any_or :
    (p q : WorkflowStep → Bool) (steps : List WorkflowStep)
    → any (λ s. p s || q s) steps ≡ (any p steps || any q steps)
any_or p q [] = refl
any_or p q (s ∷ steps) = ground (arith, any_or p q steps)

pub graph_of-append :
    (graph : Graph) (steps : List WorkflowStep)
    → AllApart same_step steps
    → any (λ s. has_key graph s.id) steps ≡ false
    → graph_of graph steps ≡ graph ++ map entry steps
graph_of-append graph [] a h = sym (append_nil graph)
graph_of-append graph (s ∷ steps) (f, a) h =
    let fresh : any (λ x. has_key (graph ++ entry s ∷ []) x.id) steps ≡ false =
      any_ext steps (λ x. has_key-append graph (entry s ∷ []) x.id)
      ∙ any_or (λ x. has_key graph x.id) (λ x. (s.id === x.id) || false) steps
      ∙ ground (
        arith,
        any_ext {p = λ x. (s.id === x.id) || false} {q = same_step s} steps (λ x. ground arith),
      ) in
    ap (λ g. graph_of g steps) (set_needs-absent s.id s.needs graph (ground arith))
    ∙ graph_of-append (graph ++ entry s ∷ []) steps a fresh
    ∙ append_assoc graph (entry s ∷ []) (map entry steps)

pub graph_of-needs :
    (steps : List WorkflowStep)
    → AllApart same_step steps
    → All (λ s. needs_of (map entry steps) s.id ≡ s.needs) steps
graph_of-needs [] a = tt
graph_of-needs (s ∷ steps) (f, a) = (
  rw ((===_iff s.id s.id).1 refl) refl,
  All-of_mem _ steps (λ x m.
      let n : (s.id === x.id) ≡ false = elim (Bool-cases (s.id === x.id)) [
        | inl e ↦ absurd (any-mem (same_step s) x steps f m e)
        | inr e ↦ e
      ] in
      rw n (All-mem _ x steps (graph_of-needs steps a) m)),
)

pub has_key-entry :
    (steps : List WorkflowStep) (id : String) → has_key (map entry steps) id ≡ is_step steps id
has_key-entry [] id = refl
has_key-entry (s ∷ steps) id = ground (arith, has_key-entry steps id)

pub duplicates_iff :
    (index : ℕ) (ids : List String) (steps : List WorkflowStep)
    → (duplicates index ids steps ≡ [])
      ↔ ((any (λ s. contains ids s.id) steps ≡ false) × AllApart same_step steps)
duplicates_iff index ids [] = (λ e. (refl, tt), λ e. refl)
duplicates_iff index ids (s ∷ steps) =
    let both : any (λ x. contains (add s.id ids) x.id) steps
        ≡ (any (same_step s) steps || any (λ x. contains ids x.id) steps) =
      any_ext steps (λ x. contains-add s.id x.id ids)
      ∙ any_or (same_step s) (λ x. contains ids x.id) steps in
    let (to, from) = duplicates_iff (suc index) (add s.id ids) steps in
    elim (Bool-cases (contains ids s.id)) [
      | inl e ↦ rw e (λ q. absurd (cc q), λ q. absurd (cc q.0))
      | inr e ↦
          let added : add s.id ids ≡ s.id ∷ ids = rw e refl in
          rw e (
            λ q.
                let (a, b) = to (subst (λ z. duplicates (suc index) z steps ≡ []) (sym added) q) in
                (ground arith, (ground arith, b)),
            λ (a, (b, c)).
                subst (λ z. duplicates (suc index) z steps ≡ []) added (from (ground arith, c)),
          )
    ]

pub ids_of-is_step :
    (ids : List String) (steps : List WorkflowStep) (id : String)
    → contains (ids_of ids steps) id ≡ (contains ids id || is_step steps id)
ids_of-is_step ids [] id = ground arith
ids_of-is_step ids (s ∷ steps) id =
    ids_of-is_step (add s.id ids) steps id ∙ ground (arith, contains-add s.id id ids)

unknown_needs_iff :
    (index : ℕ) (ids needs : List String)
    → (unknown_needs index ids needs ≡ []) ↔ All (λ d. contains ids d ≡ true) needs
unknown_needs_iff index ids [] = (λ e. tt, λ e. refl)
unknown_needs_iff index ids (d ∷ needs) = elim (Bool-cases (contains ids d)) [
  | inl e ↦ rw e (
    λ q. (refl, (unknown_needs_iff index ids needs).0 q),
    λ q. (unknown_needs_iff index ids needs).1 q.1,
  )
  | inr e ↦ rw e (λ q. absurd (cc q), λ q. absurd (cc q.0))
]

pub append-nil : {A : Type 0} (xs ys : List A) → xs ++ ys ≡ [] → (xs ≡ []) × (ys ≡ [])
append-nil [] ys e = (refl, e)
append-nil (x ∷ xs) ys e = absurd (cc e)

pub unknowns_iff :
    (index : ℕ) (ids : List String) (steps : List WorkflowStep)
    → (unknowns index ids steps ≡ []) ↔ All (λ s. All (λ d. contains ids d ≡ true) s.needs) steps
unknowns_iff index ids [] = (λ e. tt, λ e. refl)
unknowns_iff index ids (s ∷ steps) = (
  λ e.
      let (a, b) = append-nil _ (unknowns (suc index) ids steps) e in
      ((unknown_needs_iff index ids s.needs).0 a, (unknowns_iff (suc index) ids steps).0 b),
  λ (a, b).
      rw ((unknown_needs_iff index ids s.needs).1 a) ((unknowns_iff (suc index) ids steps).1 b),
)

pub any_none : (steps : List WorkflowStep) → any (λ s. false) steps ≡ false
any_none [] = refl
any_none (s ∷ steps) = any_none steps
