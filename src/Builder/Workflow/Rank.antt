-- ===== src/Builder/Workflow/Rank.antt =====
-- Steps by rank: an order gives ranks, and a search on ranked steps reports nothing.
use devion.Prelude.{
  ℕ, zero, suc, ◌≤◌, ◌<◌, ◌≡◌, refl, ap, sym, ◌∙◌, subst, inl, inr, String, true, false, Option,
  some, List, [], ◌∷◌, ◌++◌, ◌===◌, ===_iff, if◌then◌else◌, length, All, All-weaken, All-mem, ◌∈◌,
  arith, Bool-cases, Option-cases,
}
use mathlib.Core.Option.{some-injective}
use devion.Builder.Workflow.{
  Graph, Search, contains, add, delete, needs_of, has_key, enter, leave, visit_each, visit,
  visit_keys,
}
use devion.Builder.Workflow.Sets.{delete-add}
use devion.Builder.Workflow.Order.{meets, IsOrder}

-- The place of a step in an order, from its end.
abbrev pub rank : List String → String → ℕ
rank [] x = 0
rank (v ∷ order) x = if v === x then suc (length order) else rank order x

rank-le : (order : List String) (x : String) → rank order x ≤ length order
rank-le [] x = omega arith
rank-le (v ∷ order) x = ground (arith, rank-le order x)

meets-All :
    (graph : Graph) (order : List String) (id : String)
    → IsOrder graph order
    → contains order id ≡ true
    → All (λ d. meets graph order d ≡ true) (needs_of graph id)
meets-All graph [] id o h = absurd (cc h)
meets-All graph (v ∷ order) id (f, k, o) h = elim (Bool-cases (v === id)) [
  | inl e ↦
      subst (λ x. All (λ d. meets graph (v ∷ order) d ≡ true) (needs_of graph x))
        ((===_iff v id).0 e) (All-weaken _ _ (needs_of graph v) (λ d q. ground arith) k)
  | inr e ↦
      All-weaken _ _ (needs_of graph id) (λ d q. ground arith)
        (meets-All graph order id o (ground arith))
]

-- In an order a step stands behind the keys that it needs.
pub rank-lt :
    (graph : Graph) (order : List String) (id d : String)
    → IsOrder graph order
    → contains order id ≡ true
    → d ∈ needs_of graph id
    → has_key graph d ≡ true
    → rank order d < rank order id
rank-lt graph [] id d o h m k = absurd (cc h)
rank-lt graph (v ∷ order) id d (f, a, o) h m k = elim (Bool-cases (v === id)) [
  | inl e ↦
      let b : All (λ d. meets graph order d ≡ true) (needs_of graph id) =
        subst (λ x. All (λ d. meets graph order d ≡ true) (needs_of graph x)) ((===_iff v id).0 e)
          a in
      let c : contains order d ≡ true =
        let q = All-mem _ d (needs_of graph id) b m in ground arith in
      ground (arith, rank-le order d, ===_iff v d)
  | inr e ↦
      let q : meets graph order d ≡ true =
        All-mem _ d (needs_of graph id) (meets-All graph order id o (ground arith)) m in
      ground (arith, rank-lt graph order id d o (ground arith) m k, ===_iff v d)
]

-- A search on ranked steps.
module _ (graph : Graph) (r : String → ℕ)
    (ranked : (id : String) → All (λ d. r d < r id) (needs_of graph id)) where
  -- What a visit below the steps that are being visited does to them and to the errors.
  abbrev IsSilent : Search → Option Search → Type 0
  IsSilent s o = (t : Search) → o ≡ some t → (t.visiting ≡ s.visiting) × (t.errors ≡ s.errors)

  absent :
      (id : String) (visiting : List String)
      → All (λ v. r id < r v) visiting
      → contains visiting id ≡ false
  absent id [] h = refl
  absent id (v ∷ visiting) (l, h) = ground (arith, absent id visiting h, ===_iff v id)

  visit_each-IsSilent :
      (visit_one : String → Search → Option Search) (visiting : List String)
      → ((d : String) (s : Search)
          → All (λ v. r d < r v) visiting
          → s.visiting ≡ visiting
          → IsSilent s (visit_one d s))
      → (needs : List String) → All (λ d. All (λ v. r d < r v) visiting) needs
      → (s : Search) → s.visiting ≡ visiting
      → IsSilent s (visit_each visit_one graph needs s)
  visit_each-IsSilent visit_one visiting one [] h s e t q =
      let k : s ≡ t = some-injective _ _ q in
      (ap (λ u. u.visiting) (sym k), ap (λ u. u.errors) (sym k))
  visit_each-IsSilent visit_one visiting one (d ∷ needs) (l, h) s e t q =
      elim (Bool-cases (has_key graph d)) [
        | inr k ↦ visit_each-IsSilent visit_one visiting one needs h s e t (rw (k, visit_each) at q)
        | inl k ↦ elim (Option-cases (visit_one d s)) [
          | inl n ↦ absurd (cc (rw (k, n, visit_each) at q))
          | inr (u, m) ↦
              let (a, b) = one d s l e u m in
              let (c, f) =
                visit_each-IsSilent visit_one visiting one needs h u (a ∙ e) t
                  (rw (k, m, visit_each) at q) in
              (c ∙ a, f ∙ b)
        ]
      ]

  visit-IsSilent :
      (depth : ℕ) (path : List String) (id : String) (s : Search)
      → All (λ v. r id < r v) s.visiting
      → IsSilent s (visit depth graph path id s)
  unfolding visit
  visit-IsSilent zero path id s l t q = absurd (cc q)
  visit-IsSilent (suc depth) path id s l t q =
      let e : contains s.visiting id ≡ false = absent id s.visiting l in
      elim (Bool-cases (contains s.visited id)) [
        | inl f ↦
            let k : s ≡ t = some-injective _ _ (rw (e, f, visit) at q) in
            (ap (λ u. u.visiting) (sym k), ap (λ u. u.errors) (sym k))
        | inr f ↦
            elim (Option-cases (
              visit_each (visit depth graph (path ++ id ∷ [])) graph (needs_of graph id)
                (enter id s))) [
                  | inl n ↦ absurd (cc (rw (e, f, n, visit) at q))
                  | inr (u, m) ↦
                      let k : leave id u ≡ t = some-injective _ _ (rw (e, f, m, visit) at q) in
                      let (a, b) =
                        visit_each-IsSilent (visit depth graph (path ++ id ∷ []))
                          (add id s.visiting)
                          (λ d v h g.
                            visit-IsSilent depth (path ++ id ∷ []) d v
                              (subst (All (λ x. r d < r x)) (sym g) h))
                          (needs_of graph id)
                          (All-weaken _ _ (needs_of graph id)
                            (λ d h. rw e (h, All-weaken _ _ s.visiting (λ x y. omega arith) l))
                            (ranked id))
                          (enter id s) refl u m in
                      (
                        ap (λ v. v.visiting) (sym k)
                            ∙ ap (delete id) a
                            ∙ delete-add id s.visiting e,
                        ap (λ v. v.errors) (sym k) ∙ b,
                      )
                ]
      ]

  pub visit_keys-IsSilent :
      (depth : ℕ) (ids : List String) (s : Search)
      → s.visiting ≡ []
      → IsSilent s (visit_keys depth graph ids s)
  visit_keys-IsSilent depth [] s e t q =
      let k : s ≡ t = some-injective _ _ q in
      (ap (λ u. u.visiting) (sym k), ap (λ u. u.errors) (sym k))
  visit_keys-IsSilent depth (id ∷ ids) s e t q = elim (Option-cases (visit depth graph [] id s)) [
    | inl n ↦ absurd (cc (rw (n, visit_keys) at q))
    | inr (u, m) ↦
        let (a, b) = visit-IsSilent depth [] id s (subst (All (λ v. r id < r v)) (sym e) tt) u m in
        let (c, d) = visit_keys-IsSilent depth ids u (a ∙ e) t (rw (m, visit_keys) at q) in
        (c ∙ a, d ∙ b)
  ]
