-- ===== src/Builder/Workflow/Total.antt =====
-- The search on a graph of steps comes to an end within its depth.
use devion.Prelude.{
  subst, All, All-weaken, ℕ, zero, suc, ◌≤◌, ◌<◌, ◌≡◌, refl, ap, sym, ◌∙◌, inl, inr, String, true,
  false, Option, some, List, [], ◌∷◌, ◌++◌, ◌===◌, ===_iff, not, count, length, arith, Bool-cases,
}
use devion.Builder.Workflow.{
  Graph, Search, contains, add, delete, keys, needs_of, has_key, enter, leave, report, visit_each,
  visit, visit_keys,
}
use devion.Builder.Workflow.Sets.{contains-add, delete-add}

-- The keys that are not being visited.
abbrev pub room : Graph → List String → ℕ
room graph visiting = count (λ k. not (contains visiting k)) (keys graph)

room_add :
    (graph : Graph) (id : String) (visiting : List String)
    → room graph (add id visiting) ≤ room graph visiting
room_add [] id visiting = omega arith
room_add ((k, ns) ∷ graph) id visiting =
    ground (arith, room_add graph id visiting, contains-add id k visiting)

room_enter :
    (graph : Graph) (id : String) (visiting : List String)
    → has_key graph id ≡ true
    → contains visiting id ≡ false
    → room graph (add id visiting) < room graph visiting
room_enter [] id visiting h f = absurd cc
room_enter ((k, ns) ∷ graph) id visiting h f = elim (Bool-cases (k === id)) [
  | inl e ↦
      ground
        (arith, room_add graph id visiting, contains-add id k visiting, ===_iff k id, ===_iff id k)
  | inr e ↦
      ground (
        arith,
        room_enter graph id visiting,
        contains-add id k visiting,
        ===_iff k id,
        ===_iff id k,
      )
]

-- What every visit gives: it returns, and leaves as being visited what was.
abbrev pub Returns : Option Search → List String → Type 0
Returns o visiting = (t : Search) × (o ≡ some t) × (t.visiting ≡ visiting)

visit_each-Returns :
    (visit_one : String → Search → Option Search) (graph : Graph) (visiting : List String)
    → ((d : String) (s : Search)
        → has_key graph d ≡ true
        → s.visiting ≡ visiting
        → Returns (visit_one d s) visiting)
    → (needs : List String) (s : Search) → s.visiting ≡ visiting
    → Returns (visit_each visit_one graph needs s) visiting
visit_each-Returns visit_one graph visiting one [] s e = (s, refl, e)
visit_each-Returns visit_one graph visiting one (d ∷ needs) s e =
    elim (Bool-cases (has_key graph d)) [
      | inl k ↦
          let (t, m, q) = one d s k e in
          rw (k, m, visit_each) (visit_each-Returns visit_one graph visiting one needs t q)
      | inr k ↦ rw (k, visit_each) (visit_each-Returns visit_one graph visiting one needs s e)
    ]

pub visit-Returns :
    (depth : ℕ) (graph : Graph) (path : List String) (id : String) (s : Search)
    → has_key graph id ≡ true
    → room graph s.visiting < depth
    → Returns (visit depth graph path id s) s.visiting
unfolding visit
visit-Returns zero graph path id s k r = absurd (omega arith)
visit-Returns (suc depth) graph path id s k r = elim (Bool-cases (contains s.visiting id)) [
  | inl e ↦ rw (e, visit) (report path id s, refl, refl)
  | inr e ↦ elim (Bool-cases (contains s.visited id)) [
    | inl f ↦ rw (e, f, visit) (s, refl, refl)
    | inr f ↦
        let less : room graph (add id s.visiting) < room graph s.visiting =
          room_enter graph id s.visiting k e in
        let (t, m, q) =
          visit_each-Returns (visit depth graph (path ++ id ∷ [])) graph (add id s.visiting)
            (λ d u h g. subst (Returns (visit depth graph (path ++ id ∷ []) d u)) g (
              visit-Returns depth graph (path ++ id ∷ []) d u h
                (subst (λ v. room graph v < depth) (sym g) (omega arith))))
            (needs_of graph id) (enter id s) refl in
        rw (e, f, m, visit) (leave id t, refl, ap (delete id) q ∙ delete-add id s.visiting e)
  ]
]

room_start : (graph : Graph) → room graph [] ≤ length (keys graph)
room_start [] = omega arith
room_start ((k, ns) ∷ graph) = omega (arith, room_start graph)

-- The depth that the checks give is enough.
pub visit_keys-Returns :
    (graph : Graph) (ids : List String) (s : Search)
    → All (λ id. has_key graph id ≡ true) ids
    → s.visiting ≡ []
    → Returns (visit_keys (suc (length (keys graph))) graph ids s) []
visit_keys-Returns graph [] s h e = (s, refl, e)
visit_keys-Returns graph (id ∷ ids) s (k, h) e =
    let (t, m, q) = visit-Returns (suc (length (keys graph))) graph [] id s k (
      subst (λ v. room graph v < suc (length (keys graph))) (sym e)
        (omega (arith, room_start graph))) in
    rw (m, visit_keys) (visit_keys-Returns graph ids t h (q ∙ e))

pub keys-has_key : (graph : Graph) → All (λ id. has_key graph id ≡ true) (keys graph)
keys-has_key [] = tt
keys-has_key ((k, ns) ∷ graph) = (
  ground (arith, ===_iff k k),
  All-weaken _ _ (keys graph) (λ id h. ground arith) (keys-has_key graph),
)
