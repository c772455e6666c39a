-- ===== src/Store/Files/Mail.antt =====
-- What internal/store/files.go does to files leaves the messages as they are.
use chirp.Prelude.{
  ℕ, ◌≡◌, refl, Text, text_eq, some, ok, err, arith, Option-cases, Result-cases, Bool-cases, inl,
  inr,
}
use chirp.Crypto.Aead.{Aead}
use chirp.Identity.Fingerprint.{Sha256}
use chirp.Store.Bolt.{Bolt}
use chirp.Store.Rows.{File, FileStatus}
use chirp.Store.Errors.{Res}
use chirp.Store.Messages.Mail.{Apart}
use chirp.Store.Files.Outgoing.{add_outbound_file, mark_file_sending, mark_file_sent, delete_file}
use chirp.Store.Files.{
  Vault, find_file, put_file, set_temp, set_blob, begin_receive, or_missing, after_chunk,
  write_chunk, set_file_status, file_bytes, reject_file, stored_file, checked_file, read_temp,
  found_file, complete_file, sha_hex,
}

module _ ⦃bolt : Bolt⦄ where
  abbrev pub VaultApart : Vault → Vault → Type 0
  VaultApart w v = Apart w.store.db v.store.db

  pub begin_receive-Apart :
      (id peer name hash : Text) (size now : ℕ) (v : Vault)
      → VaultApart (begin_receive id peer name hash size now v).1 v
  unfolding begin_receive put_file set_temp
  begin_receive-Apart id peer name hash size now v = ground arith

  after_chunk-Apart : (id : Text) (r : Res File) (v : Vault) → VaultApart (after_chunk id r v).1 v
  unfolding after_chunk put_file
  after_chunk-Apart id (ok f) v = ((refl, refl, refl, refl), refl)
  after_chunk-Apart id (err e) v = ((refl, refl, refl, refl), refl)

  pub write_chunk-Apart :
      (id : Text) (offset : ℕ) (bytes : Text) (v : Vault)
      → VaultApart (write_chunk id offset bytes v).1 v
  unfolding write_chunk set_temp
  write_chunk-Apart id offset bytes v = after_chunk-Apart id _ _

  set_file_status-Apart :
      (id : Text) (st : FileStatus) (v w : Vault) → set_file_status id st v ≡ ok w → VaultApart w v
  unfolding set_file_status or_missing put_file
  set_file_status-Apart id st v w h = elim (Option-cases (find_file v id)) [
    | inl n ↦ absurd (ground arith)
    | inr (f, n) ↦ ground arith
  ]

  pub mark_file_sending-Apart :
      (id : Text) (v w : Vault) → mark_file_sending id v ≡ ok w → VaultApart w v
  unfolding mark_file_sending put_file
  mark_file_sending-Apart id v w h = elim (Option-cases (find_file v id)) [
    | inl n ↦ absurd (ground arith)
    | inr (f, n) ↦ ground arith
  ]

  pub mark_file_sent-Apart : (id : Text) (v : Vault) → VaultApart (mark_file_sent id v) v
  unfolding mark_file_sent find_file put_file
  mark_file_sent-Apart id v = elim (Option-cases (bolt.get v.store.db.files id)) [
    | inl n ↦ ground arith
    | inr (f, n) ↦ ground arith
  ]

  pub delete_file-Apart : (id : Text) (v : Vault) → VaultApart (delete_file id v) v
  unfolding delete_file set_temp set_blob
  delete_file-Apart id v = ((refl, refl, refl, refl), refl)

  module _ ⦃a : Aead⦄ where
    pub add_outbound_file-Apart :
        (nonce id peer name hash bytes : Text) (now : ℕ) (v w : Vault)
        → add_outbound_file nonce id peer name hash bytes now v ≡ ok w
        → VaultApart w v
    unfolding add_outbound_file put_file set_blob
    add_outbound_file-Apart nonce id peer name hash bytes now v w h =
        elim (Result-cases (file_bytes nonce v.store.keys.enc_key bytes)) [
          | inr (x, e) ↦ absurd (ground arith)
          | inl (enc, e) ↦ ground arith
        ]

    module _ ⦃sha : Sha256⦄ where
      reject_file-Apart : (id : Text) (v : Vault) → VaultApart (reject_file id v) v
      unfolding reject_file set_temp
      reject_file-Apart id v = elim (Result-cases (set_file_status id FileStatus.failed v)) [
        | inr (x, e) ↦ ground arith
        | inl (w, e) ↦ ground (arith, set_file_status-Apart id FileStatus.failed v w e)
      ]

      stored_file-Apart :
          (id : Text) (r : Res Text) (v : Vault) → VaultApart (stored_file id r v).1 v
      unfolding stored_file set_temp set_blob
      stored_file-Apart id (err x) v = ((refl, refl, refl, refl), refl)
      stored_file-Apart id (ok enc) v =
          let w = set_blob id (some enc) v in
          elim (Result-cases (set_file_status id FileStatus.complete w)) [
            | inr (x, e) ↦ ground arith
            | inl (u, e) ↦ ground (arith, set_file_status-Apart id FileStatus.complete w u e)
          ]

      found_file-Apart :
          (nonce id : Text) (r : Res File) (v : Vault) → VaultApart (found_file nonce id r v).1 v
      unfolding found_file read_temp checked_file
      found_file-Apart nonce id (err x) v = ((refl, refl, refl, refl), refl)
      found_file-Apart nonce id (ok f) v = elim (Option-cases (v.disk.temp id)) [
        | inl n ↦ ground arith
        | inr (bytes, n) ↦ elim (Bool-cases (text_eq (sha_hex bytes) f.hash)) [
          | inr e ↦ ground (arith, reject_file-Apart id v)
          | inl e ↦
              ground (arith, stored_file-Apart id (file_bytes nonce v.store.keys.enc_key bytes) v)
        ]
      ]

      pub complete_file-Apart :
          (nonce id : Text) (v : Vault) → VaultApart (complete_file nonce id v).1 v
      unfolding complete_file
      complete_file-Apart nonce id v = found_file-Apart nonce id _ v
