-- ===== src/Store/Meta/Passphrase.antt =====
-- The passphrase round trip: EnablePassphrase, OpenWithPassphrase and LoadIdentity of
-- internal/store/store.go.
use chirp.Prelude.{
  ◌≡◌, refl, false, [], ◌∷◌, Text, text_eq, text_eq_refl, none, some, ok, err, length, ltb, ◌==◌,
  arith, Result-cases, Bool-cases, inl, inr,
}
use chirp.Bytes.Utf8.{rune_count}
use chirp.Crypto.Aead.{Aead}
use chirp.Crypto.Sealed.{bad_key, key_len, nonce_len, is_encrypted, magic, version}
use chirp.Crypto.Sealed
use chirp.Crypto.Laws.{decrypt-encrypt, decrypt-other_key, decrypt-nil_key, is_encrypted-encrypt}
use chirp.Store.Rows.{Keys}
use chirp.Store.Errors.{StoreError, crypto, passphrase_required, bad_key_length, wrong_passphrase}
use chirp.Store.Seals.{encrypt_with, decrypt}
use chirp.Store.Meta.{
  Kdf, Identity, Opened, argon2id, passphrase_set, load_record, load_identity, unlocked, open_plain,
  open_with_key, open_with_passphrase, protect, enable_passphrase,
}

module _ ⦃a : Aead⦄ where
  -- What is sealed under the passphrase key is read back with that key alone.
  decrypt-id_key :
      (nonce key priv enc : Text)
      → length nonce ≡ nonce_len
      → encrypt_with nonce (some key) priv ≡ ok enc
      → decrypt (record { enc_key = none; id_key = some key }) enc ≡ ok priv
  unfolding decrypt encrypt_with
  decrypt-id_key nonce key [] enc n h =
      let e : enc ≡ [] = ground arith in unfold is_encrypted text_eq in rw e refl
  decrypt-id_key nonce key (b ∷ priv) enc n h =
      elim (Result-cases (Sealed.encrypt nonce key (b ∷ priv))) [
        | inr (x, f) ↦ absurd (ground arith)
        | inl (sealed, f) ↦ ground (
          arith,
          decrypt-encrypt nonce key (b ∷ priv) sealed n f,
          is_encrypted-encrypt nonce key (b ∷ priv) sealed f,
        )
      ]

  decrypt-plain :
      (keys : Keys) (priv : Text) → is_encrypted priv ≡ false → decrypt keys priv ≡ ok priv
  unfolding decrypt
  decrypt-plain keys priv p = ground arith

  module _ ⦃kdf : Kdf⦄ where
    -- EnablePassphrase on a record in plaintext comes down to the transaction.
    enable-protect :
        (nonce salt passphrase : Text) (rec : Identity) (s t : Opened)
        → s.meta.identity ≡ some rec
        → is_encrypted rec.priv ≡ false
        → enable_passphrase nonce salt passphrase s ≡ ok t
        → (protect nonce salt passphrase rec rec s ≡ ok t)
          × (ltb (rune_count passphrase) 12 ≡ false)
    unfolding enable_passphrase load_identity load_record
    enable-protect nonce salt passphrase rec s t i p h =
        elim (Bool-cases (ltb (rune_count passphrase) 12)) [
          | inl short ↦ absurd (ground arith)
          | inr long ↦ elim (Bool-cases (passphrase_set s.meta)) [
            | inl set ↦ absurd (ground arith)
            | inr unset ↦ ground (arith, decrypt-plain s.keys rec.priv p, i)
          ]
        ]

    long-ne-nil : (p : Text) → ltb (rune_count p) 12 ≡ false → text_eq p [] ≡ false
    unfolding rune_count text_eq
    long-ne-nil [] h = absurd (ground arith)
    long-ne-nil (b ∷ p) h = refl

    decrypt-wrong :
        (nonce key other priv enc : Text)
        → length nonce ≡ nonce_len
        → length other ≡ 32
        → text_eq priv [] ≡ false
        → a.open' other nonce (a.seal key nonce priv) ≡ none
        → encrypt_with nonce (some key) priv ≡ ok enc
        → (e : StoreError) × (decrypt (record { enc_key = none; id_key = some other }) enc ≡ err e)
    unfolding decrypt encrypt_with
    decrypt-wrong nonce key other [] enc n o p c h = absurd (unfold text_eq in ground arith)
    decrypt-wrong nonce key other (b ∷ priv) enc n o p c h =
        elim (Result-cases (Sealed.encrypt nonce key (b ∷ priv))) [
          | inr (x, f) ↦ absurd (ground arith)
          | inl (sealed, f) ↦ (
            crypto bad_key,
            ground (
              arith,
              decrypt-other_key nonce key other (b ∷ priv) sealed n o c f,
              decrypt-nil_key nonce key (b ∷ priv) sealed n f,
              is_encrypted-encrypt nonce key (b ∷ priv) sealed f,
            ),
          )
        ]

    -- A wrong passphrase opens nothing, if the cipher refuses what is sealed under another key.
    open-wrong_passphrase :
        (nonce salt passphrase other : Text) (rec : Identity) (s t : Opened)
        → length nonce ≡ nonce_len
        → s.meta.identity ≡ some rec
        → is_encrypted rec.priv ≡ false
        → text_eq rec.priv [] ≡ false
        → enable_passphrase nonce salt passphrase s ≡ ok t
        → text_eq other [] ≡ false
        → a.open'
            (kdf.from_passphrase other salt)
            nonce
            (a.seal (kdf.from_passphrase passphrase salt) nonce rec.priv)
          ≡ none
        → open_with_passphrase other t.meta ≡ err wrong_passphrase
    unfolding open_with_passphrase load_record unlocked protect passphrase_set
    open-wrong_passphrase nonce salt passphrase other rec s t n i p q h o c =
        let key = kdf.from_passphrase passphrase salt in
        let wrong = kdf.from_passphrase other salt in
        elim (Result-cases (encrypt_with nonce (some key) rec.priv)) [
          | inr (x, f) ↦ absurd (ground (arith, enable-protect nonce salt passphrase rec s t i p h))
          | inl (enc, f) ↦
              let (x, g) =
                decrypt-wrong nonce key wrong rec.priv enc n (kdf.length-from_passphrase other salt)
                  q c f in
              ground
                (arith, enable-protect nonce salt passphrase rec s t i p h, text_eq_refl argon2id)
        ]

    -- EnablePassphrase leaves nothing that opens without its passphrase.
    abbrev pub Closed : Text → Opened → Type 0
    Closed key t =
        (open_plain t.meta ≡ err passphrase_required)
        × (open_with_passphrase [] t.meta ≡ err passphrase_required)
        × ((x : StoreError) × (open_with_key key t.meta ≡ err x))

    enable-Closed :
        (nonce salt passphrase key : Text) (rec : Identity) (s t : Opened)
        → s.meta.identity ≡ some rec
        → is_encrypted rec.priv ≡ false
        → enable_passphrase nonce salt passphrase s ≡ ok t
        → Closed key t
    unfolding open_plain open_with_key open_with_passphrase load_record protect passphrase_set
    enable-Closed nonce salt passphrase key rec s t i p h =
        let pass = kdf.from_passphrase passphrase salt in
        elim (Result-cases (encrypt_with nonce (some pass) rec.priv)) [
          | inr (x, f) ↦ absurd (ground (arith, enable-protect nonce salt passphrase rec s t i p h))
          | inl (enc, f) ↦
              let d = enable-protect nonce salt passphrase rec s t i p h in
              let k : t.meta.kdf ≡ some argon2id = ground (arith, d) in
              elim (Bool-cases (length key == key_len)) [
                | inl y ↦ (
                  ground (arith, d, text_eq_refl argon2id),
                  ground (arith, k, text_eq_refl argon2id, text_eq_refl []),
                  (passphrase_required, ground (arith, k, text_eq_refl argon2id, text_eq_refl [])),
                )
                | inr n ↦ (
                  ground (arith, d, text_eq_refl argon2id),
                  ground (arith, k, text_eq_refl argon2id, text_eq_refl []),
                  (bad_key_length, ground (arith)),
                )
              ]
        ]

    opens :
        (nonce salt passphrase : Text) (rec : Identity) (s t : Opened)
        → length nonce ≡ nonce_len
        → s.meta.identity ≡ some rec
        → is_encrypted rec.priv ≡ false
        → enable_passphrase nonce salt passphrase s ≡ ok t
        → open_with_passphrase passphrase t.meta
          ≡ ok (record {
            meta = t.meta;
            keys = record {
              enc_key = some (kdf.from_identity rec.priv);
              id_key = some (kdf.from_passphrase passphrase salt);
            };
          })
    unfolding open_with_passphrase load_record unlocked protect passphrase_set
    opens nonce salt passphrase rec s t n i p h =
        let key = kdf.from_passphrase passphrase salt in
        elim (Result-cases (encrypt_with nonce (some key) rec.priv)) [
          | inr (x, f) ↦ absurd (ground (arith, enable-protect nonce salt passphrase rec s t i p h))
          | inl (enc, f) ↦ ground (
            arith,
            enable-protect nonce salt passphrase rec s t i p h,
            decrypt-id_key nonce key rec.priv enc n f,
            long-ne-nil passphrase,
            text_eq_refl argon2id,
          )
        ]

    -- After EnablePassphrase, Open and OpenWithPassphrase with an empty passphrase ask for the
    -- passphrase, OpenWithKey fails with any key, OpenWithPassphrase with another passphrase, under
    -- whose key the cipher refuses what was sealed, answers that it is wrong, and
    -- OpenWithPassphrase with the passphrase opens the same records with the keys derived from the
    -- passphrase and from the identity. The nonce is 12 bytes, and the private key that was stored
    -- is not empty and not in the sealed format.
    pub open-enable_passphrase :
        (nonce salt passphrase other key : Text) (rec : Identity) (s t : Opened)
        → length nonce ≡ nonce_len
        → s.meta.identity ≡ some rec
        → is_encrypted rec.priv ≡ false
        → text_eq rec.priv [] ≡ false
        → enable_passphrase nonce salt passphrase s ≡ ok t
        → text_eq other [] ≡ false
        → a.open'
            (kdf.from_passphrase other salt)
            nonce
            (a.seal (kdf.from_passphrase passphrase salt) nonce rec.priv)
          ≡ none
        → Closed key t
          × (open_with_passphrase other t.meta ≡ err wrong_passphrase)
          × (open_with_passphrase passphrase t.meta
              ≡ ok (record {
                meta = t.meta;
                keys = record {
                  enc_key = some (kdf.from_identity rec.priv);
                  id_key = some (kdf.from_passphrase passphrase salt);
                };
              }))
    open-enable_passphrase nonce salt passphrase other key rec s t n i p q h o c = (
      enable-Closed nonce salt passphrase key rec s t i p h,
      open-wrong_passphrase nonce salt passphrase other rec s t n i p q h o c,
      opens nonce salt passphrase rec s t n i p h,
    )
