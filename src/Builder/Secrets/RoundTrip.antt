-- ===== src/Builder/Secrets/RoundTrip.antt =====
-- Sealed secrets are read back.
use devion.Prelude.{
  ℕ, suc, ◌≡◌, refl, ap, String, false, some, List, [], ◌∷◌, is_nil, has, All, split, split-append,
  split-whole,
}
use devion.Builder.Secrets.{
  Crypto, dot, key, seal, encrypt_run_secrets, unseal, decrypt_run_secrets,
}

-- What the source relies on: base64url can be read back, holds no dot and is empty only for nothing;
-- AES-GCM decrypts what it encrypted under the same key and vector, and its output is never empty,
-- since it carries a tag.
pub record IsCrypto (c : Crypto) : Type 0 where
  pub from-base64url : (bytes : List ℕ) → c.from_base64url (c.base64url bytes) ≡ bytes
  pub base64url-dotless : (bytes : List ℕ) → has (c.base64url bytes) dot ≡ false
  pub base64url-nil : (bytes : List ℕ) → is_nil (c.base64url bytes) ≡ is_nil bytes
  pub decrypt-encrypt : (k iv bytes : List ℕ) → c.decrypt k iv (c.encrypt k iv bytes) ≡ some bytes
  pub encrypt-tagged : (k iv bytes : List ℕ) → is_nil (c.encrypt k iv bytes) ≡ false

-- The texts that survive UTF-8, such as those without lone surrogates.
abbrev pub IsText : Crypto → List ℕ → Type 0
IsText c value = c.from_utf8 (c.utf8 value) ≡ value

unseal-seal :
    (c : Crypto)
    → IsCrypto c
    → (secret iv value : List ℕ) → is_nil iv ≡ false
    → IsText c value
    → unseal c secret (split dot (seal c secret iv value)) ≡ some value
unseal-seal c laws secret iv value h t =
    rw
      (split-append dot (c.base64url iv) (c.base64url (c.encrypt (key c secret) iv (c.utf8 value)))
        (laws.base64url-dotless iv))
      (rw
        (split-whole dot (c.base64url (c.encrypt (key c secret) iv (c.utf8 value)))
          (laws.base64url-dotless _))
        (rw
          (
            laws.base64url-nil iv,
            laws.base64url-nil (c.encrypt (key c secret) iv (c.utf8 value)),
            h,
            laws.encrypt-tagged (key c secret) iv (c.utf8 value),
            laws.from-base64url iv,
            laws.from-base64url (c.encrypt (key c secret) iv (c.utf8 value)),
            laws.decrypt-encrypt (key c secret) iv (c.utf8 value),
          )
          (ap some t)))

-- The secrets of a run that are sealed under a key are read back under the same key, name by name,
-- where their values are texts that UTF-8 keeps and the random vectors are not empty.
pub decrypt-encrypt_run_secrets :
    (c : Crypto)
    → IsCrypto c
    → (draws : ℕ → List ℕ) (n : ℕ) (values : List (String × List ℕ)) (secret : List ℕ)
    → ((i : ℕ) → is_nil (draws i) ≡ false)
    → All (λ (name, value). IsText c value) values
    → decrypt_run_secrets c (encrypt_run_secrets c draws n values secret) secret ≡ some values
unfolding encrypt_run_secrets decrypt_run_secrets
decrypt-encrypt_run_secrets c laws draws n [] secret h t = refl
decrypt-encrypt_run_secrets c laws draws n ((name, value) ∷ values) secret h (t, ts) =
    rw (unseal-seal c laws secret (draws n) value (h n) t, decrypt_run_secrets)
      (rw (decrypt-encrypt_run_secrets c laws draws (suc n) values secret h ts) refl)
