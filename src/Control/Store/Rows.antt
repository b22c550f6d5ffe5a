-- ===== src/Control/Store/Rows.antt =====
-- The rows of a table behind an update.
use devion.Prelude.{
  ◌≡◌, refl, ap, ◌∙◌, ◌⊎◌, inl, inr, Bool, true, false, List, [], ◌∷◌, ◌++◌, ◌∈◌, All, any,
  any-append, any_ext, any-mem, sym, arith, Bool-cases, if◌then◌else◌,
}
use devion.Control.Store.{update_where}

-- A row behind an update was there and is not met, or is what became of one that was met.
pub mem-update_where :
    {A : Type 0} (test : A → Bool) (write : A → A) (x : A) (xs : List A)
    → x ∈ update_where test write xs
    → ((x ∈ xs) × (test x ≡ false)) ⊎ ((y : A) × (y ∈ xs) × (test y ≡ true) × (x ≡ write y))
mem-update_where test write x [] m = absurd m
mem-update_where test write x (y ∷ ys) (inl e) = elim (Bool-cases (test y)) [
  | inl t ↦ inr (y, inl refl, t, rw t at e)
  | inr f ↦ let q : x ≡ y = rw f at e in inl (inl q, ap test q ∙ f)
]
mem-update_where test write x (y ∷ ys) (inr m) = elim (mem-update_where test write x ys m) [
  | inl (k, f) ↦ inl (inr k, f)
  | inr (z, k, t, e) ↦ inr (z, inr k, t, e)
]

-- Rows of which no two clash, such as those that a unique index allows.
module _ {A : Type 0} (clash : A → A → Bool) where
  abbrev pub AllApart : List A → Type 0
  AllApart [] = Unit
  AllApart (x ∷ xs) = (any (clash x) xs ≡ false) × AllApart xs

  pub AllApart-append :
      ((x y : A) → clash x y ≡ clash y x)
      → (xs : List A) (y : A) → AllApart xs
      → any (clash y) xs ≡ false
      → AllApart (xs ++ y ∷ [])
  AllApart-append comm [] y h free = (refl, tt)
  AllApart-append comm (x ∷ xs) y (h, hs) free = (
    rw (any-append (clash x) xs (y ∷ [])) (ground (arith, comm x y)),
    AllApart-append comm xs y hs (ground arith),
  )

pub All-update_where :
    {A : Type 0} (P : A → Type 0) (test : A → Bool) (write : A → A) (xs : List A)
    → ((x : A) → x ∈ xs → test x ≡ true → P x → P (write x))
    → All P xs
    → All P (update_where test write xs)
All-update_where P test write [] keeps h = h
All-update_where P test write (x ∷ xs) keeps (p, h) = (
  elim (Bool-cases (test x)) [ inl t ↦ rw t (keeps x (inl refl) t p) | inr f ↦ rw f p ],
  All-update_where P test write xs (λ y m. keeps y (inr m)) h,
)

-- An update that leaves what the rows clash by leaves them apart.
module _ {A : Type 0} (clash : A → A → Bool) (test : A → Bool) (write : A → A) where
  any-update_where :
      ((x y : A) → clash x (write y) ≡ clash x y)
      → (x : A) (ys : List A) → any (clash x) (update_where test write ys) ≡ any (clash x) ys
  any-update_where right x [] = refl
  any-update_where right x (y ∷ ys) = ground (arith, right x y, any-update_where right x ys)

  pub AllApart-update_where :
      ((x y : A) → clash (write x) y ≡ clash x y)
      → ((x y : A) → clash x (write y) ≡ clash x y)
      → (xs : List A) → AllApart clash xs
      → AllApart clash (update_where test write xs)
  AllApart-update_where left right [] h = tt
  AllApart-update_where left right (x ∷ xs) (h, hs) = (
    elim (Bool-cases (test x)) [
      | inl t ↦ rw t (rw (any-update_where right (write x) xs) (rw (any_ext xs (left x)) h))
      | inr f ↦ rw f (rw (any-update_where right x xs) h)
    ],
    AllApart-update_where left right xs hs,
  )

-- Of rows that stand apart, two that clash are one.
pub AllApart-mem :
    {A : Type 0} (clash : A → A → Bool)
    → ((x y : A) → clash x y ≡ clash y x)
    → (xs : List A) (x y : A) → AllApart clash xs
    → x ∈ xs
    → y ∈ xs
    → clash x y ≡ true
    → x ≡ y
AllApart-mem clash comm [] x y h m n c = absurd m
AllApart-mem clash comm (z ∷ zs) x y (h, hs) (inl e) (inl q) c = e ∙ sym q
AllApart-mem clash comm (z ∷ zs) x y (h, hs) (inl e) (inr n) c =
    absurd (any-mem (clash z) y zs h n (ap (λ t. clash t y) (sym e) ∙ c))
AllApart-mem clash comm (z ∷ zs) x y (h, hs) (inr m) (inl q) c =
    absurd (any-mem (clash z) x zs h m (ap (λ t. clash t x) (sym q) ∙ comm y x ∙ c))
AllApart-mem clash comm (z ∷ zs) x y (h, hs) (inr m) (inr n) c =
    AllApart-mem clash comm zs x y hs m n c

pub mem-of_update_where :
    {A : Type 0} (test : A → Bool) (write : A → A) (x : A) (xs : List A)
    → x ∈ xs
    → (if test x then write x else x) ∈ update_where test write xs
mem-of_update_where test write x [] m = absurd m
mem-of_update_where test write x (y ∷ ys) (inl e) = inl (ap (λ z. if test z then write z else z) e)
mem-of_update_where test write x (y ∷ ys) (inr m) = inr (mem-of_update_where test write x ys m)

-- An update that meets no row changes none.
pub update_where-none :
    {A : Type 0} (test : A → Bool) (write : A → A) (xs : List A)
    → any test xs ≡ false
    → update_where test write xs ≡ xs
update_where-none test write [] h = refl
update_where-none test write (x ∷ xs) h = ground (arith, update_where-none test write xs)
