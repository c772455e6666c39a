-- ===== src/Store/Files/Outgoing/Laws.antt =====
-- The life of a file that is sent.
use chirp.Prelude.{
  ℕ, ◌≡◌, Text, text_eq_refl, none, some, ok, length, if◌then◌else◌, arith, Option-cases,
  Result-cases, inl, inr,
}
use chirp.Crypto.Aead.{Aead}
use chirp.Crypto.Sealed
use chirp.Crypto.Laws.{decrypt-encrypt}
use chirp.Store.Bolt.{Bolt}
use chirp.Store.Rows.{File, FileStatus, queued, sending}
use chirp.Store.Seals.Laws.{IsNonce}
use chirp.Store.Files.{Vault, is_status, find_file, put_file, set_blob, file_bytes, file_blob}
use chirp.Store.Files.Outgoing.{
  put_outbox, drop_outbox, change_row, outbound_row, add_outbound_file, mark_file_sending,
  mark_file_sent,
}

module _ ⦃bolt : Bolt⦄ ⦃a : Aead⦄ where
  -- Where AddOutboundFile succeeds with a nonce of 12 bytes, FileBlob returns the bytes that the
  -- user gave, encrypted on disk or not, the file is in the outbox, and its row is queued with the
  -- given header.
  add_outbound_file-file_blob :
      (nonce id peer name hash src : Text) (now : ℕ) (v w : Vault)
      → IsNonce nonce
      → add_outbound_file nonce id peer name hash src now v ≡ ok w
      → (file_blob id w ≡ ok src)
        × (bolt.get w.store.db.file_outbox id ≡ some id)
        × (find_file w id ≡ some (outbound_row id peer name hash (length src) now))
  unfolding add_outbound_file file_blob file_bytes put_outbox find_file put_file set_blob
  add_outbound_file-file_blob nonce id peer name hash src now v w n h =
      elim (Option-cases v.store.keys.enc_key) [
        | inl k ↦ ground (
          arith,
          bolt.get-put v.store.db.files id id (outbound_row id peer name hash (length src) now),
          bolt.get-put v.store.db.file_outbox id id id,
          text_eq_refl id,
        )
        | inr (key, k) ↦ elim (Result-cases (Sealed.encrypt nonce key src)) [
          | inr (x, e) ↦ absurd (ground arith)
          | inl (c, e) ↦ ground (
            arith,
            bolt.get-put v.store.db.files id id (outbound_row id peer name hash (length src) now),
            bolt.get-put v.store.db.file_outbox id id id,
            text_eq_refl id,
            decrypt-encrypt nonce key src c n.0 e,
          )
        ]
      ]

  -- A file that is found and marked as being sent, and then as sent, is in the state sent with its
  -- whole size counted, and is out of the outbox.
  mark_file_sent-sending :
      (id : Text) (f : File) (v w : Vault)
      → find_file v id ≡ some f
      → mark_file_sending id v ≡ ok w
      → (find_file (mark_file_sent id w) id
          ≡ some (record f { status = FileStatus.sent; sent = f.size }))
        × (bolt.get (mark_file_sent id w).store.db.file_outbox id ≡ none)
  unfolding mark_file_sending mark_file_sent drop_outbox change_row find_file put_file
  mark_file_sent-sending id f v w g h =
      let begun : File = record f {
        status = if is_status f.status queued then sending else f.status;
        sent = 0;
      } in
      let ended : File = record f { status = FileStatus.sent; sent = f.size } in
      ground (
        arith,
        bolt.get-put v.store.db.files id id begun,
        bolt.get-put (bolt.put v.store.db.files id begun) id id ended,
        bolt.get-delete v.store.db.file_outbox id id,
        text_eq_refl id,
      )
