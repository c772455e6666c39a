-- ===== src/Node/Transfer/Mail.antt =====
-- What an incoming file does to the store leaves the messages as they are.
use chirp.Prelude.{ℕ, refl, Text, ok, err, arith}
use chirp.Prelude.Int.{pos_part}
use chirp.Crypto.Aead.{Aead}
use chirp.Identity.Fingerprint.{Sha256}
use chirp.Proto.Envelope.{Envelope}
use chirp.Store.Bolt.{Bolt}
use chirp.Store.Rows.{File}
use chirp.Store.Errors.{Res}
use chirp.Store.Messages.Mail.{Apart}
use chirp.Store.Files.{write_chunk}
use chirp.Store.Files.Mail.{begin_receive-Apart, write_chunk-Apart, complete_file-Apart}
use chirp.Node.Transfer.{Session, on_file, after_write, progressed, on_chunk}

module _ ⦃bolt : Bolt⦄ where
  pub on_file-Apart :
      (now : ℕ) (e : Envelope) (s : Session)
      → Apart (on_file now e s).0.vault.store.db s.vault.store.db
  unfolding on_file
  on_file-Apart now e s = begin_receive-Apart e.id s.peer e.src e.hash (pos_part e.size) now s.vault

  module _ ⦃a : Aead⦄ ⦃sha : Sha256⦄ where
    after_write-Apart :
        (nonce id : Text) (r : Res File) (s : Session)
        → Apart (after_write nonce id r s).vault.store.db s.vault.store.db
    unfolding after_write progressed
    after_write-Apart nonce id (err x) s = ((refl, refl, refl, refl), refl)
    after_write-Apart nonce id (ok f) s = ground (arith, complete_file-Apart nonce id s.vault)

    pub on_chunk-Apart :
        (nonce : Text) (e : Envelope) (s : Session)
        → Apart (on_chunk nonce e s).vault.store.db s.vault.store.db
    unfolding on_chunk
    on_chunk-Apart nonce e s =
        let w = write_chunk e.id (pos_part e.offset) e.chunk s.vault in
        ground (
          arith,
          write_chunk-Apart e.id (pos_part e.offset) e.chunk s.vault,
          after_write-Apart nonce e.id w.0 (record s { vault = w.1 }),
        )
