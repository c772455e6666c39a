-- ===== src/Api/FileCalls/Mail.antt =====
-- What the handlers of files in internal/api/api.go do leaves the messages as they are.
use chirp.Prelude.{suc, refl, Text, take, Option, none, some, Result-cases, inl, inr}
use chirp.Crypto.Aead.{Aead}
use chirp.Identity.Fingerprint.{Sha256}
use chirp.Proto.Envelope.{max_file_size}
use chirp.Store.Bolt.{Bolt}
use chirp.Store.Casing.{Casing}
use chirp.Store.Messages.Mail.{Apart}
use chirp.Store.Files.Mail.{delete_file-Apart}
use chirp.Node.Outbox.{send_file}
use chirp.Node.Outbox.Mail.{send_file-Apart}
use chirp.Api.Server.{Machine, World, vault_of}
use chirp.Api.{sanitize_filename}
use chirp.Api.FileCalls.{remove_file, upload_file}

module _ ⦃bolt : Bolt⦄ where
  pub remove_file-Apart : (id : Text) (m : Machine) → Apart (remove_file id m).1.db m.db
  unfolding remove_file
  remove_file-Apart id m = delete_file-Apart id (vault_of m)

module _ ⦃bolt : Bolt⦄ ⦃casing : Casing⦄ ⦃a : Aead⦄ ⦃sha : Sha256⦄ where
  pub upload_file-Apart :
      (w : World) (peer : Text) (body : Option (Text × Text)) (m : Machine)
      → Apart (upload_file w peer body m).1.db m.db
  unfolding upload_file
  upload_file-Apart w peer none m = ((refl, refl, refl, refl), refl)
  upload_file-Apart w peer (some (filename, content)) m =
      let name = sanitize_filename filename in
      let bytes = take (suc max_file_size) content in
      elim (Result-cases (send_file w.nonce w.id w.now peer name bytes (vault_of m))) [
        | inr (x, e) ↦ rw e ((refl, refl, refl, refl), refl)
        | inl (v, e) ↦ rw e (send_file-Apart w.nonce w.id w.now peer name bytes (vault_of m) v e)
      ]
