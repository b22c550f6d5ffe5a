-- ===== src/Core/Scheduler/Choice.antt =====
-- What a placement decision promises: an eligible node, whenever there is one, and the best of them.
use Prim.Native.Nat.{Ordering}
use mathlib.Core.Option.{some-injective}
use devion.Prelude.{
  String, ◌≡◌, refl, sym, ap, ◌∙◌, subst, ◌≢◌, ◌↔◌, ◌⊎◌, inl, inr, true, false, none, some, List,
  [], ◌∷◌, ◌∈◌, is_nil, Bool-cases, arith, All,
}
use devion.Core.Contracts.{NodeSnapshot, WorkloadRequirements}
use devion.Core.Scheduler.{
  SchedulingDecision, eligible, balanced_load, no_eligible_node, reasons_against, Platform,
  Candidate, score_node, candidates_of, compare_candidates, first, insert, sort, schedule_workload,
}
use devion.Core.Scheduler.Eligible.{IsEligible, IsEligible-of_no_reasons, no_reasons_of_IsEligible}

nil_of-is_nil {ℓ} : {A : Type ℓ} (l : List A) → is_nil l ≡ true → l ≡ []
nil_of-is_nil [] h = refl
nil_of-is_nil (x ∷ xs) h = cc

List-cases : {A : Type 0} (l : List A) → (l ≡ []) ⊎ ((x : A) × (xs : List A) × (l ≡ x ∷ xs))
List-cases [] = inl refl
List-cases (x ∷ xs) = inr (x, xs, refl)

module _ (platform : Platform) where
  open platform use {Float}

  abbrev pub candidate : NodeSnapshot → Candidate Float
  candidate node = record { node = node; score = score_node platform node }

  -- The candidates are the eligible nodes with their scores.
  candidate-IsEligible :
      (nodes : List NodeSnapshot) (req : WorkloadRequirements) (c : Candidate Float)
      → c ∈ candidates_of platform nodes req
      → (c.node ∈ nodes) × IsEligible c.node req × (c ≡ candidate c.node)
  unfolding candidates_of
  candidate-IsEligible [] req c m = absurd m
  candidate-IsEligible (node ∷ nodes) req c m =
      elim (Bool-cases (is_nil (reasons_against node req))) [
        | inl e ↦ elim (rw e at m) [
          | inl q ↦ (
            inl (ap (λ (d : Candidate Float). d.node) q),
            subst (λ (d : Candidate Float). IsEligible d.node req) (sym q)
                (IsEligible-of_no_reasons node req (nil_of-is_nil _ e)),
            q ∙ ap (λ (d : Candidate Float). candidate d.node) (sym q),
          )
          | inr k ↦ let (a, b, d) = candidate-IsEligible nodes req c k in (inr a, b, d)
        ]
        | inr e ↦ let (a, b, d) = candidate-IsEligible nodes req c (rw e at m) in (inr a, b, d)
      ]

  eligible-candidate :
      (nodes : List NodeSnapshot) (req : WorkloadRequirements) (node : NodeSnapshot)
      → node ∈ nodes
      → IsEligible node req
      → candidate node ∈ candidates_of platform nodes req
  unfolding candidates_of
  eligible-candidate [] req node m el = absurd m
  eligible-candidate (n ∷ ns) req node (inl e) el =
      rw (no_reasons_of_IsEligible n req (subst (λ k. IsEligible k req) e el))
        (inl (ap candidate e))
  eligible-candidate (n ∷ ns) req node (inr m) el =
      elim (Bool-cases (is_nil (reasons_against n req))) [
        | inl e ↦ rw e (inr (eligible-candidate ns req node m el))
        | inr e ↦ rw e (eligible-candidate ns req node m el)
      ]

  mem-insert :
      (c d : Candidate Float) (ds : List (Candidate Float))
      → (d ∈ insert platform c ds) ↔ ((d ≡ c) ⊎ (d ∈ ds))
  unfolding insert
  mem-insert c d [] = (λ h. h, λ h. h)
  mem-insert c d (e ∷ es) = elim (Bool-cases (first platform c e)) [
    | inl t ↦ rw t (λ h. h, λ h. h)
    | inr f ↦ rw f (
      λ h. elim h [
        | inl q ↦ inr (inl q)
        | inr m ↦ elim ((mem-insert c d es).0 m) [ inl q ↦ inl q | inr k ↦ inr (inr k) ]
      ],
      λ h. elim h [
        | inl q ↦ inr ((mem-insert c d es).1 (inl q))
        | inr m ↦ elim m [ inl q ↦ inl q | inr k ↦ inr ((mem-insert c d es).1 (inr k)) ]
      ],
    )
  ]

  mem-sort : (d : Candidate Float) (cs : List (Candidate Float)) → (d ∈ sort platform cs) ↔ (d ∈ cs)
  unfolding sort
  mem-sort d [] = (λ h. h, λ h. h)
  mem-sort d (c ∷ cs) = (
    λ h. elim ((mem-insert c d (sort platform cs)).0 h) [
      | inl q ↦ inl q
      | inr m ↦ inr ((mem-sort d cs).0 m)
    ],
    λ h.
        (mem-insert c d (sort platform cs)).1
          (elim h [ inl q ↦ inl q | inr m ↦ inr ((mem-sort d cs).1 m) ]),
  )

  abbrev pub schedule : List NodeSnapshot → WorkloadRequirements → SchedulingDecision
  schedule = schedule_workload platform

  abbrev ranked : List NodeSnapshot → WorkloadRequirements → List (Candidate Float)
  ranked nodes req = sort platform (candidates_of platform nodes req)

  -- Any candidate that the decision may name is an eligible node of the input.
  ranked-IsEligible :
      (nodes : List NodeSnapshot) (req : WorkloadRequirements) (c : Candidate Float)
      → c ∈ ranked nodes req
      → (c.node ∈ nodes) × IsEligible c.node req × (c ≡ candidate c.node)
  ranked-IsEligible nodes req c m =
      candidate-IsEligible nodes req c ((mem-sort c (candidates_of platform nodes req)).0 m)

  -- The scheduler names a node exactly when some node is eligible, and a named node is an eligible
  -- one of the given; without one the only reason is that there is no eligible node.
  pub schedule_workload-IsEligible :
      (nodes : List NodeSnapshot) (req : WorkloadRequirements)
      → ((n : NodeSnapshot) × (n ∈ nodes)
          × IsEligible n req
          × (schedule nodes req
              ≡ record { node_id = some n.id; reasons = eligible ∷ balanced_load ∷ [] }))
        ⊎ (((n : NodeSnapshot) → n ∈ nodes → ¬ IsEligible n req)
            × (schedule nodes req ≡ record { node_id = none; reasons = no_eligible_node ∷ [] }))
  unfolding schedule_workload
  schedule_workload-IsEligible nodes req = elim (List-cases (ranked nodes req)) [
    | inl e ↦ inr (
      λ n m el. rw e at (
          (mem-sort (candidate n) (candidates_of platform nodes req)).1
            (eligible-candidate nodes req n m el)),
      rw e,
    )
    | inr (c, cs, e) ↦
        let (a, b, d) = ranked-IsEligible nodes req c (rw e (inl refl)) in inl (c.node, a, b, rw e)
  ]

-- What the choice among candidates needs of the runtime: `lt` compares scores that are no NaN, and
-- `locale_compare` is a collation.
pub record IsOrdered (platform : Platform) : Type 0 where
  pub lt_asymm : (a b : platform.Float) → platform.lt a b ≡ true → platform.lt b a ≡ false
  pub lt_cotrans :
      (a b c : platform.Float)
      → platform.lt a b ≡ false
      → platform.lt b c ≡ false
      → platform.lt a c ≡ false
  pub locale_total :
      (s t : String)
      → platform.locale_compare s t ≡ Ordering.gt
      → platform.locale_compare t s ≢ Ordering.gt
  pub locale_trans :
      (s t u : String)
      → platform.locale_compare s t ≢ Ordering.gt
      → platform.locale_compare t u ≢ Ordering.gt
      → platform.locale_compare s u ≢ Ordering.gt

module _ (platform : Platform) (laws : IsOrdered platform) where
  open platform use {Float, lt, locale_compare}

  -- `n` is at least as good as `m`: no lower score, and at equal scores not behind in the collation.
  abbrev pub Precedes : Candidate Float → Candidate Float → Type 0
  Precedes c d =
      (lt c.score d.score ≡ false)
      × (lt d.score c.score ≡ false → locale_compare c.node.id d.node.id ≢ Ordering.gt)

  first_iff : (c d : Candidate Float) → (first platform c d ≡ true) ↔ Precedes c d
  unfolding compare_candidates
  first_iff c d = (
    λ h. (ground (arith, laws.lt_asymm d.score c.score), λ n e. ground arith),
    λ (l, g). elim (Bool-cases (lt d.score c.score)) [
      | inl e ↦ ground arith
      | inr e ↦ ground (arith, g e)
    ],
  )

  first-total : (c d : Candidate Float) → first platform c d ≡ false → first platform d c ≡ true
  unfolding compare_candidates
  first-total c d h = ground (
    arith,
    laws.lt_asymm d.score c.score,
    laws.lt_asymm c.score d.score,
    laws.locale_total c.node.id d.node.id,
  )

  Precedes-trans : (c d e : Candidate Float) → Precedes c d → Precedes d e → Precedes c e
  Precedes-trans c d e (h, f) (k, g) = (
    laws.lt_cotrans _ _ _ h k,
    λ n. laws.locale_trans _ _ _ (f (laws.lt_cotrans _ _ _ k n)) (g (laws.lt_cotrans _ _ _ n h)),
  )

  Precedes-refl : (c : Candidate Float) → Precedes c c
  Precedes-refl c = elim (Bool-cases (first platform c c)) [
    | inl t ↦ (first_iff c c).0 t
    | inr f ↦ (first_iff c c).0 (first-total c c f)
  ]

  abbrev Sorted : List (Candidate Float) → Type 0
  Sorted [] = Unit
  Sorted (c ∷ cs) = All (Precedes c) cs × Sorted cs

  All-Precedes :
      (c d : Candidate Float) (es : List (Candidate Float))
      → Precedes c d
      → All (Precedes d) es
      → All (Precedes c) es
  All-Precedes c d [] h k = tt
  All-Precedes c d (e ∷ es) h (k, ks) = (Precedes-trans c d e h k, All-Precedes c d es h ks)

  All-insert :
      (d c : Candidate Float) (es : List (Candidate Float))
      → Precedes d c
      → All (Precedes d) es
      → All (Precedes d) (insert platform c es)
  unfolding insert
  All-insert d c [] h k = (h, tt)
  All-insert d c (e ∷ es) h (k, ks) = elim (Bool-cases (first platform c e)) [
    | inl t ↦ rw t (h, (k, ks))
    | inr f ↦ rw f (k, All-insert d c es h ks)
  ]

  Sorted-insert :
      (c : Candidate Float) (ds : List (Candidate Float))
      → Sorted ds
      → Sorted (insert platform c ds)
  unfolding insert
  Sorted-insert c [] s = (tt, tt)
  Sorted-insert c (d ∷ ds) (h, s) = elim (Bool-cases (first platform c d)) [
    | inl t ↦
        let le : Precedes c d = (first_iff c d).0 t in rw t ((le, All-Precedes c d ds le h), (h, s))
    | inr f ↦
        let ge : Precedes d c = (first_iff d c).0 (first-total c d f) in
        rw f (All-insert d c ds ge h, Sorted-insert c ds s)
  ]

  Sorted-sort : (cs : List (Candidate Float)) → Sorted (sort platform cs)
  unfolding sort
  Sorted-sort [] = tt
  Sorted-sort (c ∷ cs) = Sorted-insert c (sort platform cs) (Sorted-sort cs)

  mem_of_All :
      (c d : Candidate Float) (es : List (Candidate Float))
      → All (Precedes c) es
      → d ∈ es
      → Precedes c d
  mem_of_All c d [] h m = absurd m
  mem_of_All c d (e ∷ es) (h, hs) (inl q) = rw q h
  mem_of_All c d (e ∷ es) (h, hs) (inr m) = mem_of_All c d es hs m

  -- The head of a sorted list precedes every member.
  head-Precedes :
      (c d : Candidate Float) (cs : List (Candidate Float))
      → Sorted (c ∷ cs)
      → d ∈ (c ∷ cs)
      → Precedes c d
  head-Precedes c d cs s (inl q) = rw q (Precedes-refl c)
  head-Precedes c d cs (h, s) (inr m) = mem_of_All c d cs h m

  -- The named node is the best of the eligible nodes: none has a higher score, and among those
  -- with its score none stands before it in the collation.
  pub schedule_workload_best :
      (nodes : List NodeSnapshot) (req : WorkloadRequirements) (id : String)
      → (schedule platform nodes req).node_id ≡ some id
      → (n : NodeSnapshot) × (n ∈ nodes)
        × (n.id ≡ id)
        × ((m : NodeSnapshot)
            → m ∈ nodes
            → IsEligible m req
            → Precedes (candidate platform n) (candidate platform m))
  unfolding schedule_workload
  schedule_workload_best nodes req id h = elim (List-cases (ranked platform nodes req)) [
    | inl e ↦ cc (rw e at h)
    | inr (c, cs, e) ↦
        let (a, _, b) = ranked-IsEligible platform nodes req c (rw e (inl refl)) in
        (
          c.node,
          a,
          some-injective _ _ (rw e at h),
          λ m k el.
              subst (λ d. Precedes d (candidate platform m)) b
                (head-Precedes c (candidate platform m) cs
                  (subst Sorted e (Sorted-sort (candidates_of platform nodes req)))
                  (subst (λ l. candidate platform m ∈ l) e
                    ((mem-sort platform (candidate platform m) _).1
                      (eligible-candidate platform nodes req m k el)))),
        )
  ]
