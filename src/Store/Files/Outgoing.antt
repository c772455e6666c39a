-- ===== src/Store/Files/Outgoing.antt =====
-- Files that are sent, and the removal of files: AddOutboundFile, FileOutbox, MarkFileSending,
-- MarkFileSent, DeleteFileOutbox, DeleteFile and CancelReceive of internal/store/files.go.
pub mod Laws
use chirp.Prelude.{
  ℕ, Bool, true, false, List, [], ◌∷◌, Text, text_eq, Option, none, some, Result, ok, err, ◌>>=◌,
  ◌>>◌, guard, length, if◌then◌else◌,
}
use chirp.Crypto.Aead.{Aead}
use chirp.Store.Bolt.{Bolt}
use chirp.Store.Rows.{File, FileStatus, queued, sending, sent, receiving, dir_out, Db, Store, Keys}
use chirp.Store.Errors.{StoreError, file_not_found, not_receiving, Res}
use chirp.Store.Files.{
  Disk, Vault, is_status, or_missing, find_file, put_file, set_temp, set_blob, file_bytes,
}

module _ ⦃bolt : Bolt⦄ where
  unfoldable pub put_outbox : Text → Vault → Vault
  put_outbox id v = record v {
    store = record (v.store) {
      db = record (v.store.db) { file_outbox = bolt.put v.store.db.file_outbox id id };
    };
  }

  drop_outbox : Text → Vault → Vault
  drop_outbox id v = record v {
    store = record (v.store) {
      db = record (v.store.db) { file_outbox = bolt.delete v.store.db.file_outbox id };
    };
  }

  drop_row : Text → Vault → Vault
  drop_row id v = record v {
    store = record (v.store) {
      db = record (v.store.db) { files = bolt.delete v.store.db.files id };
    };
  }

  -- os.RemoveAll of the file's directory.
  drop_dir : Text → Vault → Vault
  drop_dir id v = set_temp id none (set_blob id none v)

  abbrev pub outbound_row : Text → Text → Text → Text → ℕ → ℕ → File
  outbound_row id peer name hash size now = record {
    id = id;
    peer = peer;
    dir = dir_out;
    name = name;
    size = size;
    hash = hash;
    status = queued;
    received = 0;
    sent = 0;
    ts = now;
  }

  module _ ⦃a : Aead⦄ where
    unfoldable pub add_outbound_file :
        Text → Text → Text → Text → Text → Text → ℕ → Vault → Res Vault
    unfolding put_outbox file_bytes
    add_outbound_file nonce id peer name hash data' now v = do
      enc ← file_bytes nonce v.store.keys.enc_key data'
      ok (
          put_outbox id (
            put_file id (outbound_row id peer name hash (length data') now)
              (set_blob id (some enc) v)))

  -- A queued file is now being sent; a file that was being sent starts its count again.
  unfoldable pub mark_file_sending : Text → Vault → Res Vault
  unfolding or_missing
  mark_file_sending id v = do
    f ← or_missing (find_file v id)
    ok (
        put_file id
          (record f { status = if is_status f.status queued then sending else f.status; sent = 0 })
          v)

  -- A row that is gone is left alone.
  change_row : Text → (File → File) → Option File → Vault → Vault
  change_row id change none v = v
  change_row id change (some f) v = put_file id (change f) v

  unfoldable pub mark_file_sent : Text → Vault → Vault
  unfolding drop_outbox change_row
  mark_file_sent id v =
      let w = drop_outbox id v in
      change_row id (λ f. record f { status = FileStatus.sent; sent = f.size }) (find_file w id) w

  unfoldable delete_file_outbox : Text → Vault → Vault
  unfolding drop_outbox change_row
  delete_file_outbox id v =
      let w = drop_outbox id v in
      change_row id (λ f. record f { status = queued }) (find_file w id) w

  unfoldable pub delete_file : Text → Vault → Vault
  unfolding drop_outbox drop_row drop_dir
  delete_file id v = drop_dir id (drop_row id (drop_outbox id v))

  unfoldable cancel_receive : Text → Vault → Res Vault
  unfolding or_missing drop_row drop_dir
  cancel_receive id v = do
    f ← or_missing (find_file v id)
    guard (is_status f.status receiving) not_receiving
    ok (drop_dir id (drop_row id v))

  outbox_rows : (Text → Option File) → List (Text × Text) → List File
  outbox_rows row [] = []
  outbox_rows row ((k, id) ∷ l) =
      let rest = outbox_rows row l in elim (row k) [ none ↦ rest | some f ↦ f ∷ rest ]

  unfoldable pub file_outbox : Vault → List File
  unfolding outbox_rows
  file_outbox v = outbox_rows (bolt.get v.store.db.files) (bolt.pairs v.store.db.file_outbox)
