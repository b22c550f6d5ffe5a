-- ===== src/Prelude/Lists.antt =====
-- Lists measured by native numbers, the array methods that the source calls, and predicates on lists.
use Prim.Native.Nat.{ℕ, suc, ◌-◌, ◌+◌, ◌≤◌}
use mathlib.Core.Logic.{◌⊎◌, ◌↔◌, inl, inr}
use mathlib.Core.Path.{◌≡◌, refl, sym, ap, subst, ◌∙◌}
use mathlib.Core.Bool.{Bool, true, false, ◌&&◌, ◌||◌}
use mathlib.Core.Option.{Option, none, some}
use mathlib.Core.List.{List, [], ◌∷◌, ◌++◌, map}
use native.Mathlib.Omega.{arith}
use devion.Prelude.Tests.{Bool-cases, if◌then◌else◌, ◌==◌}

module _ {ℓ} {A : Type ℓ} where
  abbrev pub length : List A → ℕ
  length [] = 0
  length (x ∷ xs) = suc (length xs)

  -- `Array.prototype.filter`.
  abbrev pub filter : (A → Bool) → List A → List A
  filter p [] = []
  filter p (x ∷ xs) = if p x then x ∷ filter p xs else filter p xs

  -- `Array.prototype.find`.
  abbrev pub find : (A → Bool) → List A → Option A
  find p [] = none
  find p (x ∷ xs) = if p x then some x else find p xs

  -- `Array.prototype.some`.
  abbrev pub any : (A → Bool) → List A → Bool
  any p [] = false
  any p (x ∷ xs) = p x || any p xs

  -- `Array.prototype.every`.
  abbrev pub all : (A → Bool) → List A → Bool
  all p [] = true
  all p (x ∷ xs) = p x && all p xs

  -- `slice(0, n)`.
  abbrev pub take : ℕ → List A → List A
  take n [] = []
  take n (x ∷ xs) = let rest = take (n - 1) xs in if n == 0 then [] else x ∷ rest

  abbrev pub head? : List A → Option A
  head? [] = none
  head? (x ∷ xs) = some x

  -- `Array.prototype.flat`.
  abbrev pub concat : List (List A) → List A
  concat [] = []
  concat (xs ∷ xss) = xs ++ concat xss

  pub length-append : (xs ys : List A) → length (xs ++ ys) ≡ length xs + length ys
  length-append [] ys = omega arith
  length-append (x ∷ xs) ys = omega (arith, length-append xs ys)

  pub length-filter : (p : A → Bool) (xs : List A) → length (filter p xs) ≤ length xs
  length-filter p [] = omega arith
  length-filter p (x ∷ xs) = ground (arith, length-filter p xs)

module _ {ℓ κ} {A : Type ℓ} {B : Type κ} where
  -- `Array.prototype.flatMap`.
  abbrev pub flat_map : (A → List B) → List A → List B
  flat_map f [] = []
  flat_map f (x ∷ xs) = f x ++ flat_map f xs

module _ {ℓ κ} {A : Type ℓ} (P : A → Type κ) where
  -- Every item has `P`.
  abbrev pub All : List A → Type κ
  All [] = Unit
  All (x ∷ xs) = P x × All xs

  pub All-append : (xs ys : List A) → All xs → All ys → All (xs ++ ys)
  All-append [] ys h k = k
  All-append (x ∷ xs) ys (p, h) k = (p, All-append xs ys h k)

infix 40 ◌∈◌
-- `x` stands in the list.
abbrev pub ◌∈◌ : {A : Type 0} → A → List A → Type 0
x ∈ [] = ⊥
x ∈ (y ∷ ys) = (x ≡ y) ⊎ (x ∈ ys)

abbrev pub is_nil {ℓ} : {A : Type ℓ} → List A → Bool
is_nil [] = true
is_nil (_ ∷ _) = false

-- `Set.prototype.has` for a set of numbers, kept as a list.
abbrev pub has : List ℕ → ℕ → Bool
has [] n = false
has (x ∷ xs) n = x == n || has xs n

-- How many items pass a test.
abbrev pub count {ℓ} : {A : Type ℓ} → (A → Bool) → List A → ℕ
count p [] = 0
count p (x ∷ xs) = if p x then suc (count p xs) else count p xs

pub count-append {ℓ} :
    {A : Type ℓ} (p : A → Bool) (xs ys : List A) → count p (xs ++ ys) ≡ count p xs + count p ys
count-append p [] ys = omega arith
count-append p (x ∷ xs) ys = ground (arith, count-append p xs ys)

pub count_of_any {ℓ} : {A : Type ℓ} (p : A → Bool) (xs : List A) → any p xs ≡ false → count p xs ≡ 0
count_of_any p [] h = refl
count_of_any p (x ∷ xs) h = ground (arith, count_of_any p xs)

pub any-append {ℓ} :
    {A : Type ℓ} (p : A → Bool) (xs ys : List A) → any p (xs ++ ys) ≡ (any p xs || any p ys)
any-append p [] ys = refl
any-append p (x ∷ xs) ys = ground (arith, any-append p xs ys)

pub mem-append_left : {A : Type 0} (x : A) (xs ys : List A) → x ∈ xs → x ∈ (xs ++ ys)
mem-append_left x [] ys m = absurd m
mem-append_left x (z ∷ xs) ys (inl e) = inl e
mem-append_left x (z ∷ xs) ys (inr m) = inr (mem-append_left x xs ys m)

pub mem-append : {A : Type 0} (x : A) (xs ys : List A) → x ∈ (xs ++ ys) → (x ∈ xs) ⊎ (x ∈ ys)
mem-append x [] ys m = inr m
mem-append x (z ∷ xs) ys (inl e) = inl (inl e)
mem-append x (z ∷ xs) ys (inr m) = elim (mem-append x xs ys m) [
  | inl k ↦ inl (inr k)
  | inr k ↦ inr k
]

pub mem-filter :
    {A : Type 0} (p : A → Bool) (x : A) (xs : List A)
    → (x ∈ filter p xs) ↔ ((x ∈ xs) × (p x ≡ true))
mem-filter p x [] = (λ m. absurd m, λ m. m.0)
mem-filter p x (y ∷ ys) = elim (Bool-cases (p y)) [
  | inl e ↦ rw e (
    λ m. elim m [
      | inl q ↦ (inl q, ap p q ∙ e)
      | inr k ↦ let (a, b) = (mem-filter p x ys).0 k in (inr a, b)
    ],
    λ (m, h). elim m [ inl q ↦ inl q | inr k ↦ inr ((mem-filter p x ys).1 (k, h)) ],
  )
  | inr e ↦ rw e (
    λ m. let (a, b) = (mem-filter p x ys).0 m in (inr a, b),
    λ (m, h). elim m [ inl q ↦ cc (ap p q) | inr k ↦ (mem-filter p x ys).1 (k, h) ],
  )
]

pub any_ext {ℓ} :
    {A : Type ℓ} {p q : A → Bool} (xs : List A) → ((x : A) → p x ≡ q x) → any p xs ≡ any q xs
any_ext [] h = refl
any_ext (x ∷ xs) h = ground (arith, h x, any_ext xs h)

-- No item passes where none is found to.
pub any-mem :
    {A : Type 0} (p : A → Bool) (x : A) (xs : List A) → any p xs ≡ false → x ∈ xs → ¬ (p x ≡ true)
any-mem p x [] h m t = m
any-mem p x (y ∷ ys) h (inl e) t = ground (arith, ap p e)
any-mem p x (y ∷ ys) h (inr m) t = any-mem p x ys (ground arith) m t

pub any-witness :
    {A : Type 0} (p : A → Bool) (xs : List A) → any p xs ≡ true → (x : A) × (x ∈ xs) × (p x ≡ true)
any-witness p [] h = absurd cc
any-witness p (x ∷ xs) h = elim (Bool-cases (p x)) [
  | inl t ↦ (x, inl refl, t)
  | inr f ↦ let (y, m, t) = any-witness p xs (ground arith) in (y, inr m, t)
]

pub any-of_mem :
    {A : Type 0} (p : A → Bool) (x : A) (xs : List A) → x ∈ xs → p x ≡ true → any p xs ≡ true
any-of_mem p x [] m h = absurd m
any-of_mem p x (y ∷ ys) (inl e) h = ground (arith, ap p e)
any-of_mem p x (y ∷ ys) (inr m) h = ground (arith, any-of_mem p x ys m h)

pub All-of_mem : {A : Type 0} (P : A → Type 0) (xs : List A) → ((x : A) → x ∈ xs → P x) → All P xs
All-of_mem P [] h = tt
All-of_mem P (x ∷ xs) h = (h x (inl refl), All-of_mem P xs (λ y m. h y (inr m)))

pub All-mem : {A : Type 0} (P : A → Type 0) (x : A) (xs : List A) → All P xs → x ∈ xs → P x
All-mem P x [] h m = absurd m
All-mem P x (y ∷ ys) (p, h) (inl e) = subst P (sym e) p
All-mem P x (y ∷ ys) (p, h) (inr m) = All-mem P x ys h m

pub All-weaken :
    {A : Type 0} (P Q : A → Type 0) (xs : List A) → ((x : A) → P x → Q x) → All P xs → All Q xs
All-weaken P Q [] f h = tt
All-weaken P Q (x ∷ xs) f (p, h) = (f x p, All-weaken P Q xs f h)

pub find-append {ℓ} :
    {A : Type ℓ} (p : A → Bool) (xs ys : List A) (a : A)
    → find p xs ≡ some a
    → find p (xs ++ ys) ≡ some a
find-append p [] ys a h = absurd cc
find-append p (x ∷ xs) ys a h = ground (arith, find-append p xs ys a)

pub find-append_none {ℓ} :
    {A : Type ℓ} (p : A → Bool) (xs ys : List A) → find p xs ≡ none → find p (xs ++ ys) ≡ find p ys
find-append_none p [] ys h = refl
find-append_none p (x ∷ xs) ys h = ground (arith, find-append_none p xs ys)

pub mem-map :
    {A B : Type 0} (f : A → B) (y : B) (xs : List A) → y ∈ map f xs → (x : A) × (x ∈ xs) × (y ≡ f x)
mem-map f y [] m = absurd m
mem-map f y (x ∷ xs) (inl e) = (x, inl refl, e)
mem-map f y (x ∷ xs) (inr m) = let (z, k, e) = mem-map f y xs m in (z, inr k, e)

pub append_assoc : {A : Type 0} (a b c : List A) → (a ++ b) ++ c ≡ a ++ (b ++ c)
append_assoc [] b c = refl
append_assoc (x ∷ a) b c = ap (λ l. x ∷ l) (append_assoc a b c)

pub append_nil : {A : Type 0} (a : List A) → a ++ [] ≡ a
append_nil [] = refl
append_nil (x ∷ a) = ap (λ l. x ∷ l) (append_nil a)

pub any-All :
    {A : Type 0} (p : A → Bool) (xs : List A) → All (λ x. p x ≡ false) xs → any p xs ≡ false
any-All p [] h = refl
any-All p (x ∷ xs) (e, h) = ground (arith, any-All p xs h)
