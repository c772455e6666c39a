-- ===== src/Store/Files/Complete.antt =====
-- CompleteFile: what is marked complete was checked, and what was sent arrives.
use chirp.Prelude.{
  ℕ, ◌≡◌, ◌≢◌, refl, ap, sym, ◌∙◌, ◌∷◌, ◌++◌, Text, text_eq_refl, text_eq→eq, Option, none, some,
  ok, err, length, arith, Option-cases, Result-cases, inl, inr,
}
use chirp.Crypto.Aead.{Aead}
use chirp.Crypto.Sealed.{key_len, magic, version}
use chirp.Crypto.Sealed
use chirp.Crypto.Laws.{decrypt-encrypt}
use chirp.Identity.Fingerprint.{Sha256}
use chirp.Store.Bolt.{Bolt}
use chirp.Store.Rows.{File, receiving, complete, failed}
use chirp.Store.Errors.{not_complete, hash_mismatch, Res}
use chirp.Store.Seals.Laws.{IsNonce}
use chirp.Store.Peers.Trust.{KeysFit}
use chirp.Store.Files.{
  Vault, find_file, put_file, set_temp, set_blob, complete_file, file_data, file_blob, sha_hex,
  found_file, read_temp, checked_file, stored_file, reject_file, file_bytes, check_received,
  set_file_status,
}
use chirp.Store.Files.Bytes.{Holds-eq}
use chirp.Store.Files.Receive.{Arrived}

module _ ⦃bolt : Bolt⦄ ⦃a : Aead⦄ ⦃sha : Sha256⦄ where
  -- What CompleteFile leaves behind when the bytes are the announced ones.
  stored : Text → Text → File → Vault → Vault
  stored id enc f v =
      set_temp id none (put_file id (record f { status = complete }) (set_blob id (some enc) v))

  complete_file-eq :
      (nonce id t enc : Text) (f : File) (v : Vault)
      → find_file v id ≡ some f
      → f.status ≡ receiving
      → f.received ≡ f.size
      → v.disk.temp id ≡ some t
      → sha_hex t ≡ f.hash
      → file_bytes nonce v.store.keys.enc_key t ≡ ok enc
      → complete_file nonce id v ≡ (ok tt, stored id enc f v)
  unfolding complete_file found_file read_temp checked_file stored_file stored find_file set_blob
  complete_file-eq nonce id t enc f v g st rc d hs en = ground (arith, text_eq_refl (sha_hex t))

  file_bytes_ok :
      (nonce : Text) (key : Option Text) (text : Text)
      → ((k : Text) → key ≡ some k → length k ≡ key_len)
      → (enc : Text) × (file_bytes nonce key text ≡ ok enc)
  unfolding file_bytes Sealed.encrypt
  file_bytes_ok nonce none text k = (text, refl)
  file_bytes_ok nonce (some key) text k =
      (magic ++ version ∷ nonce ++ a.seal key nonce text, ground (arith, k key refl))

  file_data-stored :
      (nonce id t enc : Text) (f : File) (v : Vault)
      → IsNonce nonce
      → file_bytes nonce v.store.keys.enc_key t ≡ ok enc
      → file_data id (stored id enc f v) ≡ ok t
  unfolding file_data file_blob stored file_bytes find_file put_file set_temp set_blob
  file_data-stored nonce id t enc f v n e = elim (Option-cases v.store.keys.enc_key) [
    | inl k ↦ ground (
      arith,
      bolt.get-put v.store.db.files id id (record f { status = complete }),
      text_eq_refl id,
    )
    | inr (key, k) ↦ ground (
      arith,
      bolt.get-put v.store.db.files id id (record f { status = complete }),
      text_eq_refl id,
      Result-cases (Sealed.encrypt nonce key t),
      decrypt-encrypt nonce key t enc n.0,
    )
  ]

  -- With a nonce of 12 bytes and a key that is 32 bytes or absent: once every byte of an announced
  -- file has arrived and the hash announced is that of the source, CompleteFile succeeds and
  -- FileData returns the source, whether or not the store is encrypted.
  pub complete-Arrived :
      (nonce id src : Text) (v : Vault)
      → IsNonce nonce
      → KeysFit v.store.keys
      → Arrived v id (sha_hex src) src (length src)
      → ((complete_file nonce id v).0 ≡ ok tt)
        × (file_data id (complete_file nonce id v).1 ≡ ok src)
  complete-Arrived nonce id src v n k arrived =
      let whole : arrived.bytes ≡ src = Holds-eq arrived.bytes src arrived.right arrived.short in
      let (enc, e) = file_bytes_ok nonce v.store.keys.enc_key arrived.bytes k in
      let eq =
        complete_file-eq nonce id arrived.bytes enc arrived.row v arrived.found arrived.status
          (ground (arith, arrived.received, arrived.size)) arrived.on_disk
          (ap sha_hex whole ∙ sym arrived.same_hash) e in
      rw eq (refl, file_data-stored nonce id arrived.bytes enc arrived.row v n e ∙ ap ok whole)

  stored_file_ok :
      (id : Text) (r : Res Text) (f : File) (v w : Vault)
      → find_file v id ≡ some f
      → stored_file id r v ≡ (ok tt, w)
      → (find_file w id ≡ some (record f { status = complete })) × (w.disk.temp id ≡ none)
  unfolding stored_file set_file_status find_file put_file set_temp set_blob
  stored_file_ok id (err x) f v w e h = absurd (ground arith)
  stored_file_ok id (ok enc) f v w e h =
      ground (
        arith,
        bolt.get-put v.store.db.files id id (record f { status = complete }),
        text_eq_refl id,
      )

  checked :
      (nonce id t : Text) (f : File) (v w : Vault)
      → find_file v id ≡ some f
      → v.disk.temp id ≡ some t
      → complete_file nonce id v ≡ (ok tt, w)
      → (find_file v id ≡ some f)
        × (v.disk.temp id ≡ some t)
        × (f.received ≡ f.size)
        × (sha_hex t ≡ f.hash)
        × (find_file w id ≡ some (record f { status = complete }))
        × (w.disk.temp id ≡ none)
  unfolding complete_file found_file read_temp checked_file check_received
  checked nonce id t f v w e d h = ground (
    arith,
    text_eq→eq (sha_hex t) f.hash,
    stored_file_ok id (file_bytes nonce v.store.keys.enc_key t) f v w e,
  )

  -- A call of CompleteFile that succeeds found a row with a full counter and bytes on disk with the
  -- announced hash, left that row complete, and removed the partial bytes.
  pub complete_file-checked :
      (nonce id : Text) (v w : Vault)
      → complete_file nonce id v ≡ (ok tt, w)
      → (f : File) × (t : Text) × ((find_file v id ≡ some f)
          × (v.disk.temp id ≡ some t)
          × (f.received ≡ f.size)
          × (sha_hex t ≡ f.hash)
          × (find_file w id ≡ some (record f { status = complete }))
          × (w.disk.temp id ≡ none))
  unfolding complete_file found_file
  complete_file-checked nonce id v w h = elim (Option-cases (find_file v id)) [
    | inl e ↦ absurd (ground arith)
    | inr (f, e) ↦ elim (Option-cases (v.disk.temp id)) [
      | inl d ↦ absurd (ground arith)
      | inr (t, d) ↦ (f, t, checked nonce id t f v w e d h)
    ]
  ]

  -- If a transfer's counter is full and the bytes on disk do not have the announced hash,
  -- CompleteFile reports it, throws them away and marks the row failed, and FileData refuses the
  -- file.
  complete_file-mismatch :
      (nonce id t : Text) (f : File) (v : Vault)
      → find_file v id ≡ some f
      → f.status ≡ receiving
      → f.received ≡ f.size
      → v.disk.temp id ≡ some t
      → sha_hex t ≢ f.hash
      → ((complete_file nonce id v).0 ≡ err hash_mismatch)
        × ((complete_file nonce id v).1.disk.temp id ≡ none)
        × (find_file (complete_file nonce id v).1 id ≡ some (record f { status = failed }))
        × (file_data id (complete_file nonce id v).1 ≡ err not_complete)
  unfolding complete_file found_file read_temp checked_file reject_file find_file put_file set_temp
  complete_file-mismatch nonce id t f v g st rc d hs =
      unfold file_data in
      ground (
        arith,
        text_eq→eq (sha_hex t) f.hash,
        text_eq_refl id,
        bolt.get-put v.store.db.files id id (record f { status = failed }),
      )

  -- A file that is still arriving cannot be read.
  pub file_data-receiving :
      (id hash src : Text) (r : ℕ) (v : Vault)
      → Arrived v id hash src r
      → file_data id v ≡ err not_complete
  unfolding file_data
  file_data-receiving id hash src r v w = ground (arith, w.found, w.status)
