-- ===== src/Crypto/Laws.antt =====
-- Round trip and refusals of the envelope.
use chirp.Prelude.{
  ◌≡◌, true, ◌++◌, [], Text, text_eq, none, ok, err, length, take, drop, take-append, drop-append,
  length-append, arith,
}
use chirp.Crypto.Aead.{Aead}
use chirp.Crypto.Sealed.{bad_key, decryption_failed, nonce_len, is_encrypted, encrypt, decrypt}

take_nonce : (n s : Text) → length n ≡ 12 → (take 12 (n ++ s) ≡ n) × (drop 12 (n ++ s) ≡ s)
take_nonce n s h = ground (arith, take-append n s, drop-append n s)

module _ ⦃a : Aead⦄ where
  -- What Encrypt returns under a key and a nonce of 12 bytes is decrypted under the same key to the
  -- plaintext.
  pub decrypt-encrypt :
      (nonce key text sealed : Text)
      → length nonce ≡ nonce_len
      → encrypt nonce key text ≡ ok sealed
      → decrypt key sealed ≡ ok text
  unfolding encrypt decrypt text_eq
  decrypt-encrypt nonce key text sealed hn h = ground (
    arith,
    take_nonce nonce (a.seal key nonce text) hn,
    a.open-seal key nonce text,
    a.length-seal key nonce text,
    length-append nonce (a.seal key nonce text),
  )

  -- A key under which the sealed text does not open fails.
  pub decrypt-other_key :
      (nonce key other text sealed : Text)
      → length nonce ≡ nonce_len
      → length other ≡ 32
      → a.open' other nonce (a.seal key nonce text) ≡ none
      → encrypt nonce key text ≡ ok sealed
      → decrypt other sealed ≡ err decryption_failed
  unfolding encrypt decrypt text_eq
  decrypt-other_key nonce key other text sealed hn ho c h = ground (
    arith,
    take_nonce nonce (a.seal key nonce text) hn,
    a.length-seal key nonce text,
    length-append nonce (a.seal key nonce text),
  )

  -- Nor does a nil key open it.
  pub decrypt-nil_key :
      (nonce key text sealed : Text)
      → length nonce ≡ nonce_len
      → encrypt nonce key text ≡ ok sealed
      → decrypt [] sealed ≡ err bad_key
  unfolding encrypt decrypt text_eq
  decrypt-nil_key nonce key text sealed hn h =
      ground (arith, a.length-seal key nonce text, length-append nonce (a.seal key nonce text))

  pub is_encrypted-encrypt :
      (nonce key text sealed : Text)
      → encrypt nonce key text ≡ ok sealed
      → is_encrypted sealed ≡ true
  unfolding encrypt is_encrypted text_eq
  is_encrypted-encrypt nonce key text sealed h = ground arith
