-- ===== src/Core/RateLimit/Window.antt =====
-- How many requests a window lets through, and that the two stores agree.
use devion.Prelude.{
  ℕ, suc, ◌+◌, ◌-◌, ◌≤◌, ◌<◌, min, String, ◌≡◌, refl, sym, ap, ◌∙◌, inl, inr, true, false, some,
  List, [], ◌∷◌, leb, ◌===◌, ===_iff, length, All, Bool-cases, Option-cases, arith,
}
use devion.Core.RateLimit.{
  Counter, Hits, lookup, store, start_window, next_counter, increment, upsert, Limits,
  limit_request, passed,
}

lookup-store : (key : String) (c : Counter) (hits : Hits) → lookup key (store key c hits) ≡ some c
lookup-store key c [] = ground (arith, ===_iff key key)
lookup-store key c ((k, d) ∷ hits) = ground (arith, lookup-store key c hits)

lookup-store_other :
    (key other : String) (c : Counter) (hits : Hits)
    → (key === other) ≡ false
    → lookup other (store key c hits) ≡ lookup other hits
lookup-store_other key other c [] h = ground arith
lookup-store_other key other c ((k, d) ∷ hits) h = ground (
  arith,
  ===_iff k key,
  ===_iff k other,
  ===_iff key other,
  lookup-store_other key other c hits h,
)

-- An increment of one key leaves the counters of the others.
pub increment_other :
    (now window_ms : ℕ) (key other : String) (hits : Hits)
    → (key === other) ≡ false
    → lookup other (increment now window_ms key hits).1 ≡ lookup other hits
unfolding increment
increment_other now window_ms key other hits h = lookup-store_other key other _ hits h

passed_live :
    (limits : Limits) (key : String) (times : List ℕ) (hits : Hits) (c : Counter)
    → lookup key hits ≡ some c
    → All (λ t. t < c.reset_at) times
    → passed limits key times hits ≡ min (length times) (limits.max - c.count)
unfolding passed limit_request increment
passed_live limits key [] hits c e h = ground arith
passed_live limits key (t ∷ times) hits c e (h, hs) =
    let d : Counter = record c { count = suc c.count } in
    let live : leb c.reset_at t ≡ false = ground arith in
    let rest = passed_live limits key times (store key d hits) d (lookup-store key d hits) hs in
    rw (e, live) (ground (arith, rest))

-- From the first request of a window to its end a key's requests go on up to the maximum, and no
-- further.
pub passed_window :
    (limits : Limits) (key : String) (now : ℕ) (times : List ℕ) (hits : Hits)
    → ((c : Counter) → lookup key hits ≡ some c → c.reset_at ≤ now)
    → All (λ t. t < now + limits.window_ms) times
    → passed limits key (now ∷ times) hits ≡ min (suc (length times)) limits.max
unfolding passed limit_request increment
passed_window limits key now times hits expired h =
    let d : Counter = start_window now limits.window_ms in
    let rest = passed_live limits key times (store key d hits) d (lookup-store key d hits) h in
    elim (Option-cases (lookup key hits)) [
      | inl e ↦ rw e (ground (arith, rest))
      | inr (c, e) ↦
          let over : leb c.reset_at now ≡ true = let q = expired c e in ground arith in
          rw (e, over) (ground (arith, rest))
    ]

increment_later :
    (now window_ms : ℕ) (key k : String) (d : Counter) (hits : Hits)
    → (k === key) ≡ false
    → increment now window_ms key ((k, d) ∷ hits)
      ≡ ((increment now window_ms key hits).0, (k, d) ∷ (increment now window_ms key hits).1)
unfolding increment
increment_later now window_ms key k d hits f =
    let skip : lookup key ((k, d) ∷ hits) ≡ lookup key hits = rw f refl in
    let c : Counter = next_counter now window_ms (lookup key hits) in
    let put : store key c ((k, d) ∷ hits) ≡ (k, d) ∷ store key c hits = rw f refl in
    ap
      (λ o.
        (next_counter now window_ms o, store key (next_counter now window_ms o) ((k, d) ∷ hits)))
      skip
    ∙ ap (λ l. (c, l)) put

-- The statement of the Postgres store gives the answers and the entries of the store in memory.
pub upsert-increment :
    (now window_ms : ℕ) (key : String) (hits : Hits)
    → upsert now window_ms key hits ≡ increment now window_ms key hits
unfolding upsert increment
upsert-increment now window_ms key [] = refl
upsert-increment now window_ms key ((k, d) ∷ hits) = elim (Bool-cases (k === key)) [
  | inl t ↦ rw t (ground arith)
  | inr f ↦
      rw (upsert-increment now window_ms key hits)
        (rw f refl ∙ sym (increment_later now window_ms key k d hits f))
]
