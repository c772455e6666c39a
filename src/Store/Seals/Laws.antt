-- ===== src/Store/Seals/Laws.antt =====
-- What is written under the keys of a store is read back under them.
use chirp.Prelude.{
  ℕ, ◌≡◌, ◌≢◌, ◌∙◌, text_eq, ◌<◌, refl, true, false, [], ◌∷◌, Text, none, some, Option-cases,
  Result-cases, inl, inr, ok, err, length, All, All-append, arith,
}
use chirp.Bytes.Base64
use chirp.Crypto.Aead.{Aead}
use chirp.Crypto.Sealed.{magic, version, nonce_len, is_encrypted}
use chirp.Crypto.Sealed
use chirp.Crypto.Laws.{decrypt-encrypt, is_encrypted-encrypt}
use chirp.Store.Rows.{Keys}
use chirp.Store.Errors.{base64_decode}
use chirp.Store.Seals.{encrypt_with, encrypt, decrypt, encrypt_string, decrypt_string}

-- 12 bytes, as rand.Read fills them.
abbrev pub IsNonce : Text → Type 0
IsNonce n = (length n ≡ nonce_len) × All (λ b. b < 256) n

-- The states of the two keys that the program reaches: a passphrase key never comes alone.
abbrev pub Unlocked : Keys → Type 0
Unlocked keys = keys.enc_key ≡ none → keys.id_key ≡ none

module _ ⦃a : Aead⦄ where
  encrypt-bytes :
      (nonce key text sealed : Text)
      → IsNonce nonce
      → All (λ b. b < 256) text
      → Sealed.encrypt nonce key text ≡ ok sealed
      → All (λ b. b < 256) sealed
  unfolding Sealed.encrypt
  encrypt-bytes nonce key text sealed n t h = ground (
    arith,
    All-append (λ (b : ℕ). b < 256) nonce (a.seal key nonce text) n.1
        (a.seal-bytes key nonce text t),
  )

  -- Under a key that is set, what was sealed under it comes out.
  decrypt-sealed :
      (nonce key : Text) (keys : Keys) (text sealed : Text)
      → IsNonce nonce
      → keys.enc_key ≡ some key
      → Sealed.encrypt nonce key text ≡ ok sealed
      → decrypt keys sealed ≡ ok text
  unfolding decrypt
  decrypt-sealed nonce key keys text sealed n k h = ground (
    arith,
    decrypt-encrypt nonce key text sealed n.0 h,
    is_encrypted-encrypt nonce key text sealed h,
  )

  -- A value such as a peer's key comes back as it was, if it does not itself look sealed.
  pub decrypt-encrypt_value :
      (nonce : Text) (keys : Keys) (text stored : Text)
      → IsNonce nonce
      → is_encrypted text ≡ false
      → encrypt nonce keys text ≡ ok stored
      → decrypt keys stored ≡ ok text
  unfolding encrypt_with
  decrypt-encrypt_value nonce keys [] stored n p h = unfold decrypt in ground arith
  decrypt-encrypt_value nonce keys (b ∷ s) stored n p h = elim (Option-cases keys.enc_key) [
    | inl e ↦ unfold decrypt in ground arith
    | inr (key, e) ↦ ground (arith, decrypt-sealed nonce key keys (b ∷ s) stored n e)
  ]

  encode-ne-nil : (s : Text) → is_encrypted s ≡ true → Base64.encode s ≢ []
  unfolding Base64.encode is_encrypted text_eq
  encode-ne-nil [] h = cc
  encode-ne-nil (b ∷ []) h = λ e. cc
  encode-ne-nil (b ∷ c ∷ []) h = λ e. cc
  encode-ne-nil (b ∷ c ∷ d ∷ s) h = λ e. cc

  decrypt_string-decoded :
      (keys : Keys) (k s raw : Text)
      → keys.enc_key ≡ some k
      → Base64.decode s ≡ some raw
      → is_encrypted raw ≡ true
      → s ≢ []
      → decrypt_string keys s ≡ decrypt keys raw
  unfolding decrypt_string
  decrypt_string-decoded keys k [] raw e d p h = absurd (h refl)
  decrypt_string-decoded keys k (b ∷ s) raw e d p h = ground arith

  decrypt_string-sealed :
      (nonce key : Text) (keys : Keys) (text sealed : Text)
      → IsNonce nonce
      → All (λ b. b < 256) text
      → keys.enc_key ≡ some key
      → Sealed.encrypt nonce key text ≡ ok sealed
      → decrypt_string keys (Base64.encode sealed) ≡ ok text
  decrypt_string-sealed nonce key keys text sealed n t k h =
      let p = is_encrypted-encrypt nonce key text sealed h in
      decrypt_string-decoded keys key (Base64.encode sealed) sealed k
        (Base64.decode-encode sealed (encrypt-bytes nonce key text sealed n t h)) p
        (encode-ne-nil sealed p)
      ∙ decrypt-sealed nonce key keys text sealed n k h

  -- A text of bytes that encryptString wrote is read back by decryptString, with and without a key,
  -- if a passphrase key never stands alone and the nonce is 12 bytes.
  pub decrypt-encrypt_string :
      (nonce : Text) (keys : Keys) (text stored : Text)
      → IsNonce nonce
      → Unlocked keys
      → All (λ b. b < 256) text
      → encrypt_string nonce keys text ≡ ok stored
      → decrypt_string keys stored ≡ ok text
  unfolding encrypt_string
  decrypt-encrypt_string nonce keys [] stored n u t h = unfold decrypt_string in ground arith
  decrypt-encrypt_string nonce keys (b ∷ s) stored n u t h = elim (Option-cases keys.enc_key) [
    | inl e ↦ unfold decrypt_string in ground (arith, u e)
    | inr (key, e) ↦ elim (Result-cases (Sealed.encrypt nonce key (b ∷ s))) [
      | inl (sealed, f) ↦
          ground (arith, decrypt_string-sealed nonce key keys (b ∷ s) sealed n t e f)
      | inr (x, f) ↦ ground arith
    ]
  ]

  -- A non-empty text that was stored before a key was set and is no base64 cannot be read once a
  -- key is set: decryptString fails on it.
  decrypt_string_plaintext :
      (keys : Keys) (key text : Text)
      → keys.enc_key ≡ some key
      → text ≢ []
      → Base64.decode text ≡ none
      → decrypt_string keys text ≡ err base64_decode
  unfolding decrypt_string
  decrypt_string_plaintext keys key [] e h d = absurd (h refl)
  decrypt_string_plaintext keys key (b ∷ s) e h d = ground arith
