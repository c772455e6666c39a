-- ===== src/Store/Meta.antt =====
-- The bucket bMeta of internal/store/store.go: the identity record, the settings and the passphrase.
-- LoadIdentity, SaveIdentity, RenameIdentity, Settings, SaveSettings, loadKDF, PassphraseSet, Open,
-- OpenWithKey, OpenWithPassphrase and EnablePassphrase. HKDF and Argon2id are parameters; nonce and
-- salt are what rand.Read draws.
pub mod Passphrase
use chirp.Prelude.{
  ℕ, ◌≡◌, Bool, true, false, ◌||◌, not, [], ◌∷◌, Text, codes, text_eq, Option, none, some, Result,
  ok, err, ◌>>=◌, ◌>>◌, guard, wrap, ltb, leb, ◌==◌, length, if◌then◌else◌,
}
use chirp.Prelude.Int.{ℤ, pos, ltb_ℤ}
use chirp.Bytes.Utf8.{rune_count}
use chirp.Crypto.Aead.{Aead}
use chirp.Crypto.Sealed.{key_len}
use chirp.Store.Rows.{Keys}
use chirp.Store.Errors.{
  StoreError, not_found, identity_exists, retention_out_of_range, passphrase_required,
  wrong_passphrase, passphrase_too_short, passphrase_already_set, no_identity, bad_key_length, Res,
}
use chirp.Store.Seals.{encrypt_with, decrypt}

-- DeriveKeyFromPassphraseSalt and DeriveKeyFromIdentity of internal/crypto/crypto.go, which call
-- argon2.IDKey and hkdf.New: 32 bytes for every input.
pub record Kdf : Type 0 where
  pub from_passphrase : Text → Text → Text
  pub from_identity : Text → Text
  pub length-from_passphrase : (p salt : Text) → length (from_passphrase p salt) ≡ 32
  pub length-from_identity : (priv : Text) → length (from_identity priv) ≡ 32

-- Identity and idRecord: a name and a key pair, the private part of the record perhaps sealed.
pub record Identity : Type 0 where
  pub name : Text
  pub priv : Text
  pub public : Text

pub record Settings : Type 0 where
  pub retention_days : ℤ
  pub notify : Bool
  pub previews : Bool
  pub typing : Bool
  pub receipts : Bool

-- The keys of the bucket that the program uses.
pub record Meta : Type 0 where
  pub kdf : Option Text
  pub kd_salt : Option Text
  pub identity : Option Identity
  pub settings : Option Settings

-- A file with the keys it has been opened with.
pub record Opened : Type 0 where
  pub meta : Meta
  pub keys : Keys

abbrev pub default_settings : Settings
default_settings = record {
  retention_days = pos 0;
  notify = true;
  previews = false;
  typing = false;
  receipts = false;
}

unfoldable pub settings : Opened → Settings
settings s = elim s.meta.settings [ none ↦ default_settings | some st ↦ st ]

unfoldable pub save_settings : Settings → Opened → Res Opened
save_settings st s = do
  guard (not (ltb_ℤ st.retention_days (pos 0) || ltb_ℤ (pos 3650) st.retention_days))
      retention_out_of_range
  ok (record s { meta = record (s.meta) { settings = some st } })

unfoldable pub rename_identity : Text → Opened → Res Opened
rename_identity name s = elim s.meta.identity [
  | none ↦ err not_found
  | some rec ↦
      ok (record s { meta = record (s.meta) { identity = some (record rec { name = name }) } })
]

-- A missing record is the empty string.
abbrev pub mode : Meta → Text
mode m = elim m.kdf [ none ↦ [] | some v ↦ v ]

abbrev pub salt_of : Meta → Text
salt_of m = elim m.kd_salt [ none ↦ [] | some v ↦ v ]

abbrev pub argon2id : Text
argon2id = codes "argon2id"

unfoldable pub passphrase_set : Meta → Bool
passphrase_set m = text_eq (mode m) argon2id

abbrev pub no_keys : Keys
no_keys = record { enc_key = none; id_key = none }

unfoldable pub open_plain : Meta → Res Opened
open_plain m = do
  guard (not (passphrase_set m)) passphrase_required
  ok (record { meta = m; keys = no_keys })

unfoldable pub open_with_key : Text → Meta → Res Opened
open_with_key key m = do
  guard (length key == key_len) bad_key_length
  guard (not (passphrase_set m)) passphrase_required
  ok (record { meta = m; keys = record { enc_key = some key; id_key = none } })

module _ ⦃a : Aead⦄ where
  unfoldable pub load_record : Option Identity → Keys → Res (Option Identity)
  load_record none keys = ok none
  load_record (some rec) keys = do
    priv ← decrypt keys rec.priv
    ok (some (record rec { priv = priv }))

  unfoldable pub load_identity : Opened → Res (Option Identity)
  load_identity s = load_record s.meta.identity s.keys

  unfoldable pub save_identity : Text → Identity → Opened → Res Opened
  save_identity nonce id s = do
    priv ← encrypt_with nonce s.keys.id_key id.priv
    elim s.meta.identity [
      | some rec ↦ err identity_exists
      | none ↦
          ok (record s { meta = record (s.meta) { identity = some (record id { priv = priv }) } })
    ]

  module _ ⦃kdf : Kdf⦄ where
    -- Where the identity does not decrypt, the passphrase was wrong.
    unfoldable pub unlocked : Meta → Keys → Res (Option Identity) → Res Opened
    unlocked m keys (err e) = err wrong_passphrase
    unlocked m keys (ok none) = ok (record { meta = m; keys = keys })
    unlocked m keys (ok (some id)) =
        ok (record { meta = m; keys = record keys { enc_key = some (kdf.from_identity id.priv) } })

    abbrev pub passphrase_keys : Text → Text → Keys
    passphrase_keys passphrase salt = record {
      enc_key = none;
      id_key = some (kdf.from_passphrase passphrase salt);
    }

    unfoldable pub open_with_passphrase : Text → Meta → Res Opened
    open_with_passphrase passphrase m =
        if not (passphrase_set m)
        then ok (record { meta = m; keys = no_keys })
        else if text_eq passphrase []
        then err passphrase_required
        else (let keys = passphrase_keys passphrase (salt_of m) in
            unlocked m keys (load_record m.identity keys))

    -- The identity as it is read, and the record that is written over.
    unfoldable pub protect : Text → Text → Text → Identity → Identity → Opened → Res Opened
    protect nonce salt passphrase id rec s = do
      let key = kdf.from_passphrase passphrase salt
      enc ← encrypt_with nonce (some key) rec.priv
      ok (record {
        meta = record (s.meta) {
          kdf = some argon2id;
          kd_salt = some salt;
          identity = some (record rec { priv = enc });
        };
        keys = record {
          enc_key = elim s.keys.enc_key [
            | none ↦ some (kdf.from_identity id.priv)
            | some k ↦ some k
          ];
          id_key = some key;
        };
      })

    unfoldable pub enable_passphrase : Text → Text → Text → Opened → Res Opened
    enable_passphrase nonce salt passphrase s = do
      guard (not (ltb (rune_count passphrase) 12)) passphrase_too_short
      guard (not (passphrase_set s.meta)) passphrase_already_set
      found ← load_identity s
      elim found [
        | none ↦ err no_identity
        | some id ↦ elim s.meta.identity [
          | none ↦ err not_found
          | some rec ↦ protect nonce salt passphrase id rec s
        ]
      ]
