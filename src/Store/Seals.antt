-- ===== src/Store/Seals.antt =====
-- encryptWith, encrypt, decrypt, encryptString and decryptString of internal/store/store.go. The
-- nonce that crypto.Encrypt draws is an argument.
pub mod Laws
use chirp.Prelude.{
  Bool, true, false, ◌&&◌, not, List, [], ◌∷◌, Text, Option, none, some, Result, ok, err, ◌>>=◌,
  wrap, if◌then◌else◌,
}
use chirp.Bytes.Base64
use chirp.Crypto.Aead.{Aead}
use chirp.Crypto.Sealed.{CryptoError, is_encrypted}
use chirp.Crypto.Sealed
use chirp.Store.Rows.{Keys}
use chirp.Store.Errors.{StoreError, crypto, no_key, base64_decode, Res}

module _ ⦃a : Aead⦄ where
  unfoldable pub encrypt_with : Text → Option Text → Text → Res Text
  encrypt_with nonce none plaintext = ok plaintext
  encrypt_with nonce (some key) [] = ok []
  encrypt_with nonce (some key) (b ∷ s) = wrap crypto (Sealed.encrypt nonce key (b ∷ s))

  abbrev pub encrypt : Text → Keys → Text → Res Text
  encrypt nonce keys plaintext = encrypt_with nonce keys.enc_key plaintext

  -- One turn of the loop over the two keys; a nil key is passed over.
  try_key : Option Text → Text → Option Text
  try_key none data' = none
  try_key (some key) data' = elim (Sealed.decrypt key data') [ ok text ↦ some text | err e ↦ none ]

  -- A nil key, as the last call of decrypt passes it on.
  nil_key : Option Text → Text
  nil_key none = []
  nil_key (some key) = key

  last_try : Option Text → Option Text → Text → Res Text
  unfolding nil_key
  last_try none none data' = err no_key
  last_try enc id data' = wrap crypto (Sealed.decrypt (nil_key enc) data')

  unfoldable pub decrypt : Keys → Text → Res Text
  unfolding try_key last_try
  decrypt keys data' =
      if not (is_encrypted data') then ok data' else elim (try_key keys.enc_key data') [
        | some text ↦ ok text
        | none ↦ elim (try_key keys.id_key data') [
          | some text ↦ ok text
          | none ↦ last_try keys.enc_key keys.id_key data'
        ]
      ]

  unfoldable pub encrypt_string : Text → Keys → Text → Res Text
  encrypt_string nonce keys [] = ok []
  encrypt_string nonce keys (b ∷ s) = elim keys.enc_key [
    | none ↦ ok (b ∷ s)
    | some key ↦ do
      sealed ← wrap crypto (Sealed.encrypt nonce key (b ∷ s))
      ok (Base64.encode sealed)
  ]

  decoded : Keys → Text → Option Text → Res Text
  decoded keys s none = err base64_decode
  decoded keys s (some raw) = if not (is_encrypted raw) then ok s else decrypt keys raw

  with_keys : Option Text → Option Text → Keys → Text → Res Text
  unfolding decoded
  with_keys none none keys s = ok s
  with_keys enc id keys s = decoded keys s (Base64.decode s)

  unfoldable pub decrypt_string : Keys → Text → Res Text
  unfolding with_keys
  decrypt_string keys [] = ok []
  decrypt_string keys (b ∷ s) = with_keys keys.enc_key keys.id_key keys (b ∷ s)
