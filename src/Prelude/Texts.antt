-- ===== src/Prelude/Texts.antt =====
-- Texts as lists of character codes.
use Prim.Native.Nat.{ℕ}
use Prim.Native.Char.{code}
use Prim.Native.String.{String}
use mathlib.Core.Option.{Option, none, some}
use mathlib.Core.Path.{◌≡◌, refl}
use mathlib.Core.Bool.{Bool, true, false, ◌&&◌}
use mathlib.Core.List.{List, [], ◌∷◌, ◌++◌}
use native.Mathlib.Omega.{arith}
use devion.Prelude.Lists.{has}
use devion.Prelude.Tests.{if◌then◌else◌, ◌==◌}

abbrev pub codes : String → List ℕ
codes String.[] = []
codes (String.◌∷◌ c s) = code c ∷ codes s

-- `===` on texts.
abbrev pub same_codes : List ℕ → List ℕ → Bool
same_codes [] [] = true
same_codes (c ∷ cs) (d ∷ ds) = c == d && same_codes cs ds
same_codes _ _ = false

-- What stands behind a prefix: `startsWith` and `slice`.
abbrev pub after_prefix : List ℕ → List ℕ → Option (List ℕ)
after_prefix [] cs = some cs
after_prefix (p ∷ ps) [] = none
after_prefix (p ∷ ps) (c ∷ cs) = if p == c then after_prefix ps cs else none

abbrev pub add_first : ℕ → List (List ℕ) → List (List ℕ)
add_first c [] = (c ∷ []) ∷ []
add_first c (part ∷ parts) = (c ∷ part) ∷ parts

-- `String.prototype.split` by a separator of one character.
abbrev pub split : ℕ → List ℕ → List (List ℕ)
split separator [] = [] ∷ []
split separator (c ∷ cs) =
    let parts = split separator cs in if c == separator then [] ∷ parts else add_first c parts

-- A part without the separator stands before the separator that follows it.
pub split-append :
    (separator : ℕ) (part cs : List ℕ)
    → has part separator ≡ false
    → split separator (part ++ separator ∷ cs) ≡ part ∷ split separator cs
split-append separator [] cs h = ground arith
split-append separator (c ∷ part) cs h = ground (arith, split-append separator part cs)

pub split-whole :
    (separator : ℕ) (part : List ℕ) → has part separator ≡ false → split separator part ≡ part ∷ []
split-whole separator [] h = refl
split-whole separator (c ∷ part) h = ground (arith, split-whole separator part)
