-- ===== src/Api/FileCalls.antt =====
-- The handlers of internal/api/api.go for files: sendFile, files, getFile, fileData, filePreview and
-- deleteFile, with ListFiles and GetFile of internal/store/files.go. The form that carries an upload
-- is parsed outside. Of the headers, the type and the file name stand in the body.
pub mod Mail
pub mod Preview
use chirp.Prelude.{
  ℕ, suc, ◌∷◌, [], Bool, true, false, not, ◌&&◌, ◌||◌, Text, codes, List, Option, none, some,
  Result, ok, err, text_eq, take, if◌then◌else◌,
}
use chirp.Bytes.Strings.{cut}
use chirp.Crypto.Aead.{Aead}
use chirp.Identity.Fingerprint.{Sha256}
use chirp.Proto.Envelope.{is_empty, max_file_size}
use chirp.Store.Bolt.{Bolt}
use chirp.Store.Casing.{Casing}
use chirp.Store.Rows.{File, FileStatus, complete, Dir, dir_in, dir_out}
use chirp.Store.Errors.{StoreError, file_not_found, Res}
use chirp.Store.Files.{Vault, find_file, file_data, is_status}
use chirp.Store.Files.Outgoing.{delete_file}
use chirp.Store.Meta.{Identity}
use chirp.Store.Reads.{reverse, values}
use chirp.Node.Outbox.{SendError, send_file}
use chirp.Api.{sanitize_filename}
use chirp.Api.Answers.{
  Response, Body, Failure, answer, write_err, all_done, fail, of_store, of_send,
}
use chirp.Api.Server.{Machine, World, vault_of, with_vault, shown}

-- The raster formats that may be shown.
abbrev pub previewable : Text → Bool
previewable t =
    text_eq t (codes "image/png")
    || text_eq t (codes "image/jpeg")
    || text_eq t (codes "image/gif")
    || text_eq t (codes "image/webp")

abbrev pub is_inbound : Dir → Bool
is_inbound dir_in = true
is_inbound dir_out = false

-- A content type without its parameters; 59 is a semicolon.
abbrev pub media_type : ⦃casing : Casing⦄ → Text × Option Text → Text → Text
media_type (before, none) t = t
media_type ⦃casing⦄ (before, some after) t = casing.trim_space before

module _ ⦃bolt : Bolt⦄ where
  unfoldable pub get_file : Text → Vault → Res File
  get_file id v = elim (find_file v id) [ none ↦ err file_not_found | some f ↦ ok f ]

  -- The last key first.
  unfoldable pub list_files : Vault → List File
  list_files v = reverse (values (bolt.pairs v.store.db.files))

  unfoldable pub files_of : Machine → Response × Machine
  files_of m = (answer 200 (Body.files (list_files (vault_of m))), m)

  unfoldable pub file_meta : Text → Machine → Response × Machine
  file_meta id m = shown of_store 200 Body.file (get_file id (vault_of m)) m

  unfoldable pub remove_file : Text → Machine → Response × Machine
  remove_file id m = (all_done, with_vault (delete_file id (vault_of m)) m)

  -- The name under which a file is offered, if it has one.
  abbrev pub offered : Option File → Text
  offered none = []
  offered (some f) = if is_empty f.name then [] else sanitize_filename f.name

  module _ ⦃a : Aead⦄ where
    abbrev pub download : Res Text → Option File → Response
    download (err e) f = fail (of_store e)
    download (ok bytes) f =
        answer 200 (Body.bytes (codes "application/octet-stream") (offered f) bytes)

    unfoldable pub file_bytes_of : Text → Machine → Response × Machine
    file_bytes_of id m = (download (file_data id (vault_of m)) (find_file (vault_of m) id), m)

    module _ ⦃casing : Casing⦄ where
      -- The type is what the bytes look like.
      abbrev pub preview_bytes : World → Res Text → Response
      preview_bytes w (err e) = fail (of_store e)
      preview_bytes w (ok bytes) =
          let t = media_type (cut 59 (w.detect bytes)) (w.detect bytes) in
          if previewable t then answer 200 (Body.bytes t [] bytes) else write_err 415

      abbrev pub preview_of : World → Text → Res File → Machine → Response
      preview_of w id (err e) m = fail (of_store e)
      preview_of w id (ok f) m =
          if not (is_inbound f.dir) || not (is_status f.status complete)
          then write_err 404
          else preview_bytes w (file_data id (vault_of m))

      unfoldable pub file_preview : World → Text → Machine → Response × Machine
      file_preview w id m = (preview_of w id (get_file id (vault_of m)) m, m)

      module _ ⦃sha : Sha256⦄ where
        abbrev pub file_sent : Text → Text → Result SendError Vault → Machine → Response × Machine
        file_sent id name (err e) m = (fail (of_send e), m)
        file_sent id name (ok v) m = (answer 201 (Body.created id name), with_vault v m)

        -- The upload's file name and bytes, of which one more than the limit is read.
        unfoldable pub upload_file :
            World → Text → Option (Text × Text) → Machine → Response × Machine
        upload_file w peer none m = (write_err 400, m)
        upload_file w peer (some (filename, content)) m =
            let name = sanitize_filename filename in
            file_sent w.id name
              (send_file w.nonce w.id w.now peer name (take (suc max_file_size) content)
                (vault_of m))
              m
