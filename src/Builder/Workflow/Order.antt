-- ===== src/Builder/Workflow/Order.antt =====
-- A search that reports nothing has put every step behind the steps that it needs.
use devion.Prelude.{
  ℕ, zero, suc, ◌≡◌, ap, sym, ◌∙◌, subst, inl, inr, String, Bool, true, false, Option, some, List,
  [], ◌∷◌, ◌++◌, ===_iff, ◌||◌, not, All, arith, Bool-cases, Option-cases,
}
use mathlib.Core.Option.{some-injective}
use devion.Builder.Workflow.{
  Graph, Search, GraphError, dependency_cycle, contains, add, needs_of, has_key, enter, leave,
  visit_each, visit, visit_keys,
}
use devion.Builder.Workflow.Sets.{contains-add}

-- A need that is a key is among the steps.
abbrev pub meets : Graph → List String → String → Bool
meets graph order d = not (has_key graph d) || contains order d

-- Steps, the last first, each without a repetition and behind the keys that it needs.
abbrev pub IsOrder : Graph → List String → Type 0
IsOrder graph [] = Unit
IsOrder graph (id ∷ order) =
    (contains order id ≡ false)
    × All (λ d. meets graph order d ≡ true) (needs_of graph id)
    × IsOrder graph order

IsOrder-add :
    (graph : Graph) (id : String) (order : List String)
    → IsOrder graph order
    → All (λ d. meets graph order d ≡ true) (needs_of graph id)
    → IsOrder graph (add id order)
IsOrder-add graph id order h k = elim (Bool-cases (contains order id)) [
  | inl e ↦ rw e h
  | inr e ↦ rw e (e, k, h)
]

-- What a visit without an error has done between two states.
pub record Extends (graph : Graph) (s t : Search) : Type 0 where
  pub clean : s.errors ≡ []
  pub order : IsOrder graph s.visited → IsOrder graph t.visited
  pub grows : (x : String) → contains s.visited x ≡ true → contains t.visited x ≡ true

Extends-trans :
    (graph : Graph) (s t u : Search) → Extends graph s t → Extends graph t u → Extends graph s u
Extends-trans graph s t u h k = record {
  clean = h.clean;
  order = λ o. k.order (h.order o);
  grows = λ x m. k.grows x (h.grows x m);
}

Extends-same : (graph : Graph) (s t : Search) → s ≡ t → t.errors ≡ [] → Extends graph s t
Extends-same graph s t e c =
    subst (Extends graph s) e
      (record { clean = ap (λ u. u.errors) e ∙ c; order = λ o. o; grows = λ x m. m })

-- The visit of a step, by the state before it.
abbrev pub Visits : Graph → String → Search → Option Search → Type 0
Visits graph id s o =
    (t : Search) → o ≡ some t → t.errors ≡ [] → Extends graph s t × (contains t.visited id ≡ true)

visit_each-Extends :
    (visit_one : String → Search → Option Search) (graph : Graph)
    → ((d : String) (s : Search) → Visits graph d s (visit_one d s))
    → (needs : List String) (s t : Search) → visit_each visit_one graph needs s ≡ some t
    → t.errors ≡ []
    → Extends graph s t × All (λ d. meets graph t.visited d ≡ true) needs
visit_each-Extends visit_one graph one [] s t e c =
    (Extends-same graph s t (some-injective _ _ e) c, tt)
visit_each-Extends visit_one graph one (d ∷ needs) s t e c = elim (Bool-cases (has_key graph d)) [
  | inl k ↦ elim (Option-cases (visit_one d s)) [
    | inl n ↦ absurd (cc (rw (k, n, visit_each) at e))
    | inr (u, m) ↦
        let (rest, met) =
          visit_each-Extends visit_one graph one needs u t (rw (k, m, visit_each) at e) c in
        let (first, here) = one d s u m rest.clean in
        (Extends-trans graph s u t first rest, (ground (arith, rest.grows d here), met))
  ]
  | inr k ↦
      let (rest, met) =
        visit_each-Extends visit_one graph one needs s t (rw (k, visit_each) at e) c in
      (rest, (ground arith, met))
]

report_fails : (errors : List GraphError) (e : GraphError) → ¬ (errors ++ e ∷ [] ≡ [])
report_fails [] e h = cc
report_fails (x ∷ errors) e h = cc

pub visit-Extends :
    (depth : ℕ) (graph : Graph) (path : List String) (id : String) (s : Search)
    → Visits graph id s (visit depth graph path id s)
unfolding visit
visit-Extends zero graph path id s t e c = absurd (cc e)
visit-Extends (suc depth) graph path id s t e c = elim (Bool-cases (contains s.visiting id)) [
  | inl f ↦ absurd (
      report_fails s.errors (dependency_cycle (path ++ id ∷ []))
        (ap (λ u. u.errors) (some-injective _ _ (rw (f, visit) at e)) ∙ c))
  | inr f ↦ elim (Bool-cases (contains s.visited id)) [
    | inl g ↦
        let q : s ≡ t = some-injective _ _ (rw (f, g, visit) at e) in
        (Extends-same graph s t q c, ap (λ u. contains u.visited id) (sym q) ∙ g)
    | inr g ↦
        elim (Option-cases (
          visit_each (visit depth graph (path ++ id ∷ [])) graph (needs_of graph id)
            (enter id s))) [
              | inl n ↦ absurd (cc (rw (f, g, n, visit) at e))
              | inr (u, m) ↦
                  let q : leave id u ≡ t = some-injective _ _ (rw (f, g, m, visit) at e) in
                  let (all, met) =
                    visit_each-Extends _ graph
                      (λ d v. visit-Extends depth graph (path ++ id ∷ []) d v) (needs_of graph id)
                      (enter id s) u m (ap (λ v. v.errors) q ∙ c) in
                  subst (λ v. Extends graph s v × (contains v.visited id ≡ true)) q
                    (
                      record {
                        clean = all.clean;
                        order = λ o. IsOrder-add graph id u.visited (all.order o) met;
                        grows = λ x k. ground (arith, contains-add id x u.visited, all.grows x k);
                      },
                      ground (arith, contains-add id id u.visited, ===_iff id id),
                    )
            ]
  ]
]

pub visit_keys-Extends :
    (depth : ℕ) (graph : Graph) (ids : List String) (s t : Search)
    → visit_keys depth graph ids s ≡ some t
    → t.errors ≡ []
    → Extends graph s t × All (λ id. contains t.visited id ≡ true) ids
visit_keys-Extends depth graph [] s t e c = (Extends-same graph s t (some-injective _ _ e) c, tt)
visit_keys-Extends depth graph (id ∷ ids) s t e c =
    elim (Option-cases (visit depth graph [] id s)) [
      | inl n ↦ absurd (cc (rw (n, visit_keys) at e))
      | inr (u, m) ↦
          let (rest, all) = visit_keys-Extends depth graph ids u t (rw (m, visit_keys) at e) c in
          let (first, here) = visit-Extends depth graph [] id s u m rest.clean in
          (Extends-trans graph s u t first rest, (rest.grows id here, all))
    ]
