-- ===== src/Crypto/Sealed.antt =====
-- Encrypt, Decrypt and IsEncrypted of internal/crypto/crypto.go. The nonce that Encrypt draws from
-- crypto/rand is an argument.
use chirp.Prelude.{
  ℕ, ◌+◌, Bool, [], ◌∷◌, ◌++◌, Text, codes, text_eq, Option, none, some, Result, ok, err, ltb, ◌==◌,
  not, length, take, drop, if◌then◌else◌,
}
use chirp.Crypto.Aead.{Aead}

pub data CryptoError : Type 0 where
  bad_key not_an_envelope too_short unknown_version decryption_failed : CryptoError

abbrev pub magic : Text
magic = codes "CHIRPENC"

abbrev pub version : ℕ
version = 1

abbrev pub key_len : ℕ
key_len = 32

abbrev pub nonce_len : ℕ
nonce_len = 12

-- bytes.HasPrefix(data, []byte(magic))
unfoldable pub is_encrypted : Text → Bool
is_encrypted data' = text_eq (take (length magic) data') magic

module _ ⦃a : Aead⦄ where
  unfoldable pub encrypt : Text → Text → Text → Result CryptoError Text
  encrypt nonce key plaintext =
      if length key == key_len
      then ok (magic ++ version ∷ nonce ++ a.seal key nonce plaintext)
      else err bad_key

  opened : Option Text → Result CryptoError Text
  opened none = err decryption_failed
  opened (some text) = ok text

  -- What follows the magic: the version, the nonce and the sealed text.
  decrypt_rest : Text → Text → Result CryptoError Text
  unfolding opened
  decrypt_rest key [] = err too_short
  decrypt_rest key (v ∷ rest) =
      if not (v == version)
      then err unknown_version
      else if length key == key_len
      then opened (a.open' key (take nonce_len rest) (drop nonce_len rest))
      else err bad_key

  unfoldable pub decrypt : Text → Text → Result CryptoError Text
  unfolding decrypt_rest is_encrypted
  decrypt key [] = ok []
  decrypt key (b ∷ data') =
      if not (is_encrypted (b ∷ data'))
      then err not_an_envelope
      else if ltb (length (b ∷ data')) (length magic + 1 + nonce_len + 16)
      then err too_short
      else decrypt_rest key (drop (length magic) (b ∷ data'))
