-- ===== src/Store/Files.antt =====
-- internal/store/files.go: files that are sent and received, their rows and their bytes on disk.
-- The disk holds, for each id, the bytes received so far (data.tmp) and the stored file (data.enc);
-- faults of the file system other than a missing file are not modelled. int64 sizes and offsets are
-- natural numbers here: Decode lets no negative one through, so the test `resume < 0` never holds.
pub mod Bytes
pub mod Receive
pub mod Complete
pub mod Outgoing
pub mod Mail
use chirp.Prelude.{
  ℕ, zero, suc, ◌+◌, ◌-◌, Bool, true, false, ◌&&◌, not, List, [], ◌∷◌, ◌++◌, Text, text_eq, Option,
  none, some, Result, ok, err, ◌>>=◌, ◌>>◌, guard, wrap, ltb, ◌==◌, length, take, drop, replicate,
  if◌then◌else◌,
}
use chirp.Bytes.Hex.{encode_to_string}
use chirp.Crypto.Aead.{Aead}
use chirp.Crypto.Sealed
use chirp.Identity.Fingerprint.{Sha256}
use chirp.Store.Bolt.{Bolt}
use chirp.Store.Rows.{
  File, FileStatus, queued, sending, sent, receiving, complete, failed, Dir, dir_in, dir_out, Db,
  Store, Keys,
}
use chirp.Store.Errors.{
  StoreError, crypto, file_not_found, not_receiving, truncated, hash_mismatch, not_complete,
  no_temp_file, gap, Res,
}

pub record Disk : Type 0 where
  pub temp : Text → Option Text
  pub blob : Text → Option Text

abbrev pub update : (Text → Option Text) → Text → Option Text → Text → Option Text
update f id v j = if text_eq id j then v else f j

overwrite : Text → Text → Text
overwrite old [] = old
overwrite [] (d ∷ data') = d ∷ data'
overwrite (b ∷ old) (d ∷ data') = d ∷ overwrite old data'

-- (*os.File).WriteAt: bytes before the offset that the file does not have yet are zero.
unfoldable pub write_at : Text → ℕ → Text → Text
unfolding overwrite
write_at old zero data' = overwrite old data'
write_at [] (suc offset) data' = 0 ∷ write_at [] offset data'
write_at (b ∷ old) (suc offset) data' = b ∷ write_at old offset data'

abbrev pub bytes_of : Option Text → Text
bytes_of none = []
bytes_of (some s) = s

abbrev pub is_status : FileStatus → FileStatus → Bool
is_status queued queued = true
is_status sending sending = true
is_status sent sent = true
is_status receiving receiving = true
is_status complete complete = true
is_status failed failed = true
is_status _ _ = false

pub record Vault ⦃bolt : Bolt⦄ : Type 0 where
  pub store : Store
  pub disk : Disk

unfoldable or_missing {ℓ} : {A : Type ℓ} → Option A → Res A
or_missing none = err file_not_found
or_missing (some a) = ok a

module _ ⦃bolt : Bolt⦄ where
  unfoldable pub find_file : Vault → Text → Option File
  find_file v id = bolt.get v.store.db.files id

  unfoldable pub put_file : Text → File → Vault → Vault
  put_file id f v = record v {
    store = record (v.store) {
      db = record (v.store.db) { files = bolt.put v.store.db.files id f };
    };
  }

  unfoldable pub set_temp : Text → Option Text → Vault → Vault
  set_temp id t v = record v { disk = record (v.disk) { temp = update v.disk.temp id t } }

  unfoldable pub set_blob : Text → Option Text → Vault → Vault
  set_blob id t v = record v { disk = record (v.disk) { blob = update v.disk.blob id t } }

  -- The bytes that a matching partial lets the sender skip: the smaller of the counter and the
  -- bytes on disk.
  resume_from : Text → ℕ → Option File → Option Text → ℕ
  resume_from hash size none tmp = 0
  resume_from hash size (some prev) none = 0
  resume_from hash size (some prev) (some bytes) =
      if is_status prev.status receiving && text_eq prev.hash hash && prev.size == size
      then (let n = if ltb (length bytes) prev.received then length bytes else prev.received in
          if ltb size n then 0 else n)
      else 0

  begin_row : Text → Text → Text → Text → ℕ → ℕ → ℕ → File
  begin_row id peer name hash size resume now = record {
    id = id;
    peer = peer;
    dir = dir_in;
    name = name;
    size = size;
    hash = hash;
    status = receiving;
    received = resume;
    sent = 0;
    ts = now;
  }

  -- The offset to resume from. A start from zero empties the bytes on disk.
  unfoldable pub begin_receive : Text → Text → Text → Text → ℕ → ℕ → Vault → ℕ × Vault
  unfolding resume_from begin_row
  begin_receive id peer name hash size now v =
      let resume = resume_from hash size (find_file v id) (v.disk.temp id) in
      let w = if resume == 0 then set_temp id (some []) v else v in
      (resume, put_file id (begin_row id peer name hash size resume now) w)

  advance : ℕ → ℕ → File → Res File
  advance offset len f =
      if ltb f.received offset
      then err (gap offset f.received)
      else (let high = if ltb f.received (offset + len) then offset + len else f.received in
          ok (record f { received = if ltb f.size high then f.size else high }))

  after_chunk : Text → Res File → Vault → Res File × Vault
  after_chunk id (ok f) v = (ok f, put_file id f v)
  after_chunk id (err e) v = (err e, v)

  -- The bytes are on disk before the row is looked at, and stay there if the row refuses them.
  pub write_chunk : Text → ℕ → Text → Vault → Res File × Vault
  unfolding advance after_chunk or_missing
  write_chunk id offset data' v =
      let w = set_temp id (some (write_at (bytes_of (v.disk.temp id)) offset data')) v in
      after_chunk id (do f ← or_missing (find_file w id); advance offset (length data') f) w

  set_file_status : Text → FileStatus → Vault → Res Vault
  unfolding or_missing
  set_file_status id status v = do
    f ← or_missing (find_file v id)
    ok (put_file id (record f { status = status }) v)

  abbrev ignore_error : Vault → Res Vault → Vault
  ignore_error v (ok w) = w
  ignore_error v (err e) = v

  check_received : File → Res File
  check_received f = do
    guard (is_status f.status receiving) not_receiving
    guard (f.received == f.size) truncated
    ok f

  module _ ⦃a : Aead⦄ where
    -- What writeFileData leaves in data.enc.
    file_bytes : Text → Option Text → Text → Res Text
    file_bytes nonce none data' = ok data'
    file_bytes nonce (some key) data' = wrap crypto (Sealed.encrypt nonce key data')

    unsealed : Option Text → Text → Res Text
    unsealed none data' = ok data'
    unsealed (some key) data' = wrap crypto (Sealed.decrypt key data')

    or_no_file : Option Text → Res Text
    or_no_file none = err no_temp_file
    or_no_file (some s) = ok s

    unfoldable pub file_blob : Text → Vault → Res Text
    unfolding unsealed or_no_file
    file_blob id v = do s ← or_no_file (v.disk.blob id); unsealed v.store.keys.enc_key s

    -- The decrypted bytes, of a file that has been received and checked only.
    unfoldable pub file_data : Text → Vault → Res Text
    unfolding or_missing
    file_data id v = do
      f ← or_missing (find_file v id)
      guard (is_status f.status complete) not_complete
      file_blob id v

    module _ ⦃sha : Sha256⦄ where
      abbrev pub sha_hex : Text → Text
      sha_hex s = encode_to_string (sha.sum256 s)

      reject_file : Text → Vault → Vault
      unfolding set_file_status
      reject_file id v = set_temp id none (ignore_error v (set_file_status id failed v))

      stored_file : Text → Res Text → Vault → Res (Unit {0}) × Vault
      unfolding set_file_status
      stored_file id (err e) v = (err e, v)
      stored_file id (ok enc) v =
          let w = set_blob id (some enc) v in
          elim (set_file_status id complete w) [
            | ok x ↦ (ok tt, set_temp id none x)
            | err e ↦ (err e, w)
          ]

      checked_file : Text → Text → File → Text → Vault → Res (Unit {0}) × Vault
      unfolding reject_file stored_file file_bytes
      checked_file nonce id f data' v =
          if text_eq (sha_hex data') f.hash
          then stored_file id (file_bytes nonce v.store.keys.enc_key data') v
          else (err hash_mismatch, reject_file id v)

      read_temp : Text → Text → File → Option Text → Vault → Res (Unit {0}) × Vault
      read_temp nonce id f none v = (err no_temp_file, v)
      read_temp nonce id f (some data') v = checked_file nonce id f data' v

      found_file : Text → Text → Res File → Vault → Res (Unit {0}) × Vault
      unfolding read_temp checked_file
      found_file nonce id (err e) v = (err e, v)
      found_file nonce id (ok f) v = read_temp nonce id f (v.disk.temp id) v

      pub complete_file : Text → Text → Vault → Res (Unit {0}) × Vault
      unfolding found_file check_received or_missing
      complete_file nonce id v =
          found_file nonce id (do f ← or_missing (find_file v id); check_received f) v
