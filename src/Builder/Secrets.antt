-- ===== src/Builder/Secrets.antt =====
-- The sealing of a run's secrets: apps/builder/src/secrets.ts.
-- A text and a string of bytes are lists of numbers. An object is the list of its entries.
pub mod RoundTrip
use devion.Prelude.{
  ℕ, suc, ◌≡◌, refl, String, Bool, true, false, Option, none, some, List, [], ◌∷◌, ◌++◌, ◌||◌,
  is_nil, if◌then◌else◌, split,
}
use mathlib.Core.Option

-- WebCrypto, `Buffer` and the text codecs, which the source calls.
pub record Crypto : Type 0 where
  pub sha256 : List ℕ → List ℕ
  pub encrypt : List ℕ → List ℕ → List ℕ → List ℕ
  pub decrypt : List ℕ → List ℕ → List ℕ → Option (List ℕ)
  pub utf8 : List ℕ → List ℕ
  pub from_utf8 : List ℕ → List ℕ
  pub base64url : List ℕ → List ℕ
  pub from_base64url : List ℕ → List ℕ

abbrev pub dot : ℕ
dot = 46

abbrev pub key : Crypto → List ℕ → List ℕ
key c secret = c.sha256 (c.utf8 secret)

-- An entry's value; `iv` are the twelve random bytes.
abbrev pub seal : Crypto → List ℕ → List ℕ → List ℕ → List ℕ
seal c secret iv value =
    c.base64url iv ++ dot ∷ c.base64url (c.encrypt (key c secret) iv (c.utf8 value))

-- The entries from the `n`-th; `draws` gives the random bytes of each.
unfoldable pub encrypt_run_secrets :
    Crypto → (ℕ → List ℕ) → ℕ → List (String × List ℕ) → List ℕ → List (String × List ℕ)
encrypt_run_secrets c draws n [] secret = []
encrypt_run_secrets c draws n ((name, value) ∷ values) secret =
    (name, seal c secret (draws n) value) ∷ encrypt_run_secrets c draws (suc n) values secret

-- The parts of `value.split(".")`; none where the source throws.
abbrev pub unseal : Crypto → List ℕ → List (List ℕ) → Option (List ℕ)
unseal c secret (iv ∷ ciphertext ∷ _) =
    if is_nil iv || is_nil ciphertext
    then none
    else Option.map c.from_utf8
        (c.decrypt (key c secret) (c.from_base64url iv) (c.from_base64url ciphertext))
unseal c secret _ = none

unfoldable pub decrypt_run_secrets :
    Crypto → List (String × List ℕ) → List ℕ → Option (List (String × List ℕ))
decrypt_run_secrets c [] secret = some []
decrypt_run_secrets c ((name, value) ∷ values) secret =
    let rest = decrypt_run_secrets c values secret in
    elim (unseal c secret (split dot value)) [
      | none ↦ none
      | some v ↦ Option.map (λ vs. (name, v) ∷ vs) rest
    ]
