-- ===== src/Identity/Backup.antt =====
-- ExportBackup and ImportBackup of internal/identity/backup.go. scrypt, ChaCha20-Poly1305 with
-- additional data, X25519 and encoding/json are parameters; salt and nonce are what rand.Read draws.
-- A backup file stands as the record that is marshalled.
use chirp.Prelude.{
  ℕ, zero, suc, ◌/◌, ◌%◌, ◌≡◌, refl, Bool, true, ◌&&◌, ◌||◌, not, Text, codes, text_eq,
  text_eq_refl, Option, none, some, Result, ok, err, ◌>>=◌, ◌>>◌, guard, wrap, ltb, ◌==◌, length,
  arith, Bool-cases, inl, inr,
}
use chirp.Prelude.Int.{ℤ, pos, ltb_ℤ, pos_part}
use chirp.Bytes.Utf8.{rune_count}
use chirp.Identity.Names.{NameError, validate_name}
use chirp.Store.Casing.{Casing}

-- Identity, and the backupPlain that is sealed.
pub record Identity : Type 0 where
  pub name : Text
  pub priv : Text
  pub public : Text

pub record Params : Type 0 where
  pub v : ℤ
  pub kdf : Text
  pub n : ℤ
  pub r : ℤ
  pub p : ℤ
  pub salt : Text

pub record BackupFile : Type 0 where
  pub params : Params
  pub nonce : Text
  pub data' : Text

-- What the packages do: scrypt.Key by N, r and p, which it takes where ImportBackup has checked
-- them; a sealed text opens under the same key, nonce and additional data.
pub record Kit : Type 0 where
  pub scrypt_key : Text → Text → ℕ → ℕ → ℕ → Text
  pub seal : Text → Text → Text → Text → Text
  pub open' : Text → Text → Text → Text → Option Text
  pub open-seal :
      (key nonce text ad : Text) → open' key nonce (seal key nonce text ad) ad ≡ some text
  pub marshal_params : Params → Text
  pub marshal : Identity → Text
  pub unmarshal : Text → Option Identity
  pub unmarshal-marshal : (id : Identity) → unmarshal (marshal id) ≡ some id
  pub public_of : Text → Text

pub data BackupError : Type 0 where
  short_passphrase unsupported_version unsupported_parameters corrupted bad_passphrase : BackupError
  key_pair_mismatch : BackupError
  bad_name : NameError → BackupError

abbrev pub min_passphrase_len : ℕ
min_passphrase_len = 12

abbrev pub scrypt : Text
scrypt = codes "scrypt"

abbrev pub params_of : Text → Params
params_of salt = record {
  v = pos 1;
  kdf = scrypt;
  n = pos 32768;
  r = pos 8;
  p = pos 1;
  salt = salt;
}

-- n & (n - 1) == 0 for a positive n, by halving; 64 halvings are enough for an int.
unfoldable pub is_power : ℕ → ℕ → Bool
is_power zero n = n == 1
is_power (suc fuel) n = let half = is_power fuel (n / 2) in n == 1 || n % 2 == 0 && half

unfoldable pub supported : Params → Bool
unfolding is_power
supported f =
    not (ltb_ℤ f.n (pos 16384) || ltb_ℤ (pos 1048576) f.n)
    && is_power 64 (pos_part f.n)
    && not (ltb_ℤ f.r (pos 8) || ltb_ℤ (pos 8) f.r)
    && not (ltb_ℤ f.p (pos 1) || ltb_ℤ (pos 4) f.p)
    && length f.salt == 16

unfoldable pub or_corrupted : BackupError → {A : Type 0} → Option A → Result BackupError A
or_corrupted e none = err e
or_corrupted e (some a) = ok a

module _ ⦃kit : Kit⦄ where
  key_of : Text → Params → Text
  key_of passphrase f =
      kit.scrypt_key passphrase f.salt (pos_part f.n) (pos_part f.r) (pos_part f.p)

  unfoldable pub export_backup : Text → Text → Identity → Text → Result BackupError BackupFile
  unfolding key_of
  export_backup salt nonce id passphrase = do
    guard (not (ltb (rune_count passphrase) min_passphrase_len)) short_passphrase
    let f = params_of salt
    ok (record {
      params = f;
      nonce = nonce;
      data' = kit.seal (key_of passphrase f) nonce (kit.marshal id) (kit.marshal_params f);
    })

  -- What stands in the sealed text.
  unfoldable pub imported : ⦃casing : Casing⦄ → Identity → Result BackupError Identity
  imported p = do
    guard (length p.priv == 32 && length p.public == 32) corrupted
    guard (text_eq (kit.public_of p.priv) p.public) key_pair_mismatch
    name ← wrap bad_name (validate_name p.name)
    ok (record { name = name; priv = p.priv; public = kit.public_of p.priv })

  unfoldable pub import_backup : ⦃casing : Casing⦄ → BackupFile → Text → Result BackupError Identity
  unfolding key_of
  import_backup f passphrase = do
    guard
        (not (ltb_ℤ f.params.v (pos 1) || ltb_ℤ (pos 1) f.params.v) && text_eq f.params.kdf scrypt)
        unsupported_version
    guard (supported f.params) unsupported_parameters
    guard (length f.nonce == 12) corrupted
    plain ←
        or_corrupted bad_passphrase
          (kit.open' (key_of passphrase f.params) f.nonce f.data' (kit.marshal_params f.params))
    p ← or_corrupted corrupted (kit.unmarshal plain)
    imported p

  supported-params_of : (salt : Text) → length salt ≡ 16 → supported (params_of salt) ≡ true
  unfolding supported is_power
  supported-params_of salt h = rw h refl

  -- A backup that ExportBackup writes is imported under the same passphrase as the same identity.
  -- The salt has 16 bytes, the nonce 12 and each key 32, the public key belongs to the private one,
  -- and the name is valid as it is.
  pub import-export_backup :
      ⦃casing : Casing⦄ (salt nonce passphrase : Text) (id : Identity) (f : BackupFile)
      → length salt ≡ 16
      → length nonce ≡ 12
      → length id.priv ≡ 32
      → length id.public ≡ 32
      → kit.public_of id.priv ≡ id.public
      → validate_name id.name ≡ ok id.name
      → export_backup salt nonce id passphrase ≡ ok f
      → import_backup f passphrase ≡ ok id
  unfolding export_backup import_backup imported or_corrupted
  import-export_backup salt nonce passphrase id f s n pr pu k v h =
      elim (Bool-cases (ltb (rune_count passphrase) min_passphrase_len)) [
        | inl short ↦ absurd (ground arith)
        | inr long ↦
            let q = params_of salt in
            let key = key_of passphrase q in
            let ad = kit.marshal_params q in
            ground (
              arith,
              supported-params_of salt s,
              kit.open-seal key nonce (kit.marshal id) ad,
              kit.unmarshal-marshal id,
              text_eq_refl scrypt,
              text_eq_refl id.public,
            )
      ]
