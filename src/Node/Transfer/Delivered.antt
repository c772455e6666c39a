-- ===== src/Node/Transfer/Delivered.antt =====
-- How a file that is sent arrives, from the offset at which the receiver resumes: flushFile of
-- internal/node/node.go against the file cases of internal/node/link.go.
use chirp.Prelude.{
  ℕ, zero, suc, ◌+◌, ◌-◌, ◌<◌, ◌≤◌, ◌≡◌, refl, sym, true, List, [], ◌∷◌, Text, text_eq_refl, ok,
  err, ltb, length, take, drop, length-take, length-drop, take-append-drop, arith, Bool-cases, inl,
  inr,
}
use chirp.Prelude.Int.{pos}
use mathlib.Core.Path.{subst}
use chirp.Crypto.Aead.{Aead}
use chirp.Identity.Fingerprint.{Sha256}
use chirp.Proto.Envelope.{Envelope, chunk_size}
use chirp.Store.Bolt.{Bolt}
use chirp.Store.Errors.{not_complete}
use chirp.Store.Seals.Laws.{IsNonce}
use chirp.Store.Peers.Trust.{KeysFit}
use chirp.Store.Files.{write_chunk, begin_receive, file_data, sha_hex}
use chirp.Store.Files.Bytes.{IsChunk}
use chirp.Store.Files.Receive.{
  Arrived, Partial, begin_receive-Arrived, write_chunk-Arrived, write_chunk-keys,
  begin_receive-keys, high_mark,
}
use chirp.Store.Files.Complete.{complete-Arrived, file_data-receiving}
use chirp.Node.Transfer.{
  chunks, chunk_envelope, chunk_envelopes, header, flush_chunks, Session, on_file, on_chunk,
  on_chunks, after_write, progressed, start_from,
}

IsChunk-take : (n off : ℕ) (src : Text) → IsChunk src off (take n (drop off src))
IsChunk-take n off src = (drop n (drop off src), sym (take-append-drop n (drop off src)))

module _ ⦃bolt : Bolt⦄ ⦃a : Aead⦄ ⦃sha : Sha256⦄ where
  -- A session that has received `r` bytes of a file and expects the rest.
  record Ready (s : Session) (id src : Text) (r : ℕ) : Type 0 where
    up : s.up ≡ true
    rx_id : s.rx.id ≡ id
    rx_size : s.rx.size ≡ length src
    keys : KeysFit s.vault.store.keys
    arrived : Arrived s.vault id (sha_hex src) src r

  -- Once all bytes are there the file can be read.
  Done : Session → Text → Text → Type 0
  Done s id src = (s.up ≡ true) × (file_data id s.vault ≡ ok src)

  piece : Text → ℕ → ℕ → Text
  piece src off end = take (end - off) (drop off src)

  piece-end :
      (src : Text) (off end : ℕ)
      → off < end
      → end ≤ length src
      → off + length (piece src off end) ≡ end
  unfolding piece
  piece-end src off end lt le =
      omega (arith, length-take (end - off) (drop off src), length-drop off src)

  -- The last chunk ends the transfer, any other moves it on.
  on_chunk-last :
      (nonce id src : Text) (off : ℕ) (s : Session)
      → IsNonce nonce
      → off < length src
      → Ready s id src off
      → Done (on_chunk nonce (chunk_envelope id off (piece src off (length src))) s) id src
  unfolding on_chunk after_write progressed Done
  on_chunk-last nonce id src off s n lt w =
      let c = piece src off (length src) in
      let (f, e, rc, next) =
        write_chunk-Arrived id (sha_hex src) src c off off s.vault w.arrived (omega arith)
          (unfold piece in IsChunk-take (length src - off) off src) in
      let v = (write_chunk id off c s.vault).1 in
      let top : high_mark off (off + length c) ≡ length src =
        ground (arith, piece-end src off (length src) lt (omega arith)) in
      let whole : Arrived v id (sha_hex src) src (length src) =
        subst (λ (r : ℕ). Arrived v id (sha_hex src) src r) top next in
      let keys : KeysFit v.store.keys = rw (write_chunk-keys id c off s.vault) w.keys in
      ground (arith, complete-Arrived nonce id src v n keys whole, top, text_eq_refl id)

  on_chunk-more :
      (nonce id src : Text) (off end : ℕ) (s : Session)
      → off < end
      → end < length src
      → Ready s id src off
      → Ready (on_chunk nonce (chunk_envelope id off (piece src off end)) s) id src end
  unfolding on_chunk after_write progressed
  on_chunk-more nonce id src off end s lt le w =
      let c = piece src off end in
      let (f, e, rc, next) =
        write_chunk-Arrived id (sha_hex src) src c off off s.vault w.arrived (omega arith)
          (unfold piece in IsChunk-take (end - off) off src) in
      ground (
        arith,
        piece-end src off end lt (omega arith),
        write_chunk-keys id c off s.vault,
        text_eq_refl id,
      )

  chunks-end : (fuel : ℕ) (src : Text) → chunks fuel src (length src) ≡ []
  unfolding chunks
  chunks-end zero src = refl
  chunks-end (suc fuel) src = ground arith

  chunks-more :
      (fuel : ℕ) (src : Text) (off : ℕ)
      → off + chunk_size < length src
      → chunks (suc fuel) src off
        ≡ (off, piece src off (off + chunk_size)) ∷ chunks fuel src (off + chunk_size)
  unfolding chunks piece
  chunks-more fuel src off lt = ground arith

  chunks-last :
      (fuel : ℕ) (src : Text) (off : ℕ)
      → off < length src
      → length src ≤ off + chunk_size
      → chunks (suc fuel) src off ≡ (off, piece src off (length src)) ∷ []
  unfolding chunks piece
  chunks-last fuel src off lt le = ground (arith, chunks-end fuel src)

  on_chunks-cons :
      (nonce : Text) (s : Session) (e : Envelope) (l : List Envelope)
      → s.up ≡ true
      → on_chunks nonce (e ∷ l) s ≡ on_chunks nonce l (on_chunk nonce e s)
  unfolding on_chunks
  on_chunks-cons nonce s e l up = ground arith

  -- All the chunks from an offset that has been reached.
  on_chunks-Done :
      (fuel : ℕ) (nonce id src : Text) (off : ℕ) (s : Session)
      → IsNonce nonce
      → off < length src
      → length src ≤ fuel + off
      → Ready s id src off
      → Done (on_chunks nonce (chunk_envelopes id (chunks fuel src off)) s) id src
  unfolding chunk_envelopes on_chunks
  on_chunks-Done zero nonce id src off s n lt fu w = absurd (omega arith)
  on_chunks-Done (suc fuel) nonce id src off s n lt fu w =
      elim (Bool-cases (ltb (off + chunk_size) (length src))) [
        | inl h ↦
            rw (chunks-more fuel src off (ground arith), on_chunks-cons nonce s _ _ w.up)
              (on_chunks-Done fuel nonce id src (off + chunk_size) _ n (ground arith) (omega arith)
                (on_chunk-more nonce id src off (off + chunk_size) s (omega arith) (ground arith)
                  w))
        | inr h ↦
            rw (chunks-last fuel src off lt (ground arith), on_chunks-cons nonce s _ _ w.up)
              (on_chunk-last nonce id src off s n lt w)
      ]

  start_from-eq : (r size : ℕ) → r ≤ size → start_from (pos r) size ≡ r
  start_from-eq r size le = ground arith

  on_file-Ready :
      (id name src : Text) (now : ℕ) (s : Session)
      → s.up ≡ true
      → KeysFit s.vault.store.keys
      → Partial s.vault id (sha_hex src) src
      → Ready
          (on_file now (header id name (sha_hex src) (length src)) s).0
          id
          src
          (begin_receive id s.peer name (sha_hex src) (length src) now s.vault).0
  unfolding on_file header
  on_file-Ready id name src now s up k p = record {
    up = up;
    rx_id = refl;
    rx_size = refl;
    keys = rw (begin_receive-keys id s.peer name (sha_hex src) (length src) now s.vault) k;
    arrived = begin_receive-Arrived id s.peer name (sha_hex src) src now s.vault p;
  }

  -- Let a session be up, its store's key be 32 bytes or absent, and the nonce be 12 bytes. If an
  -- earlier session left a partial of the announced hash and size, let the bytes on disk be right
  -- as far as its counter goes and be no more than the file has. If BeginReceive then answers an
  -- offset below the file's length, the header followed by the chunks that the sender cuts from
  -- that offset leaves the receiver with a checked file that reads as exactly the bytes sent.
  pub transfer-Done :
      (nonce id name src : Text) (now : ℕ) (s : Session)
      → IsNonce nonce
      → s.up ≡ true
      → KeysFit s.vault.store.keys
      → Partial s.vault id (sha_hex src) src
      → (begin_receive id s.peer name (sha_hex src) (length src) now s.vault).0 < length src
      → file_data id
          (on_chunks nonce
            (flush_chunks id src
              (pos (begin_receive id s.peer name (sha_hex src) (length src) now s.vault).0))
            (on_file now (header id name (sha_hex src) (length src)) s).0).vault
        ≡ ok src
  unfolding flush_chunks Done
  transfer-Done nonce id name src now s n up k p lt =
      let r = (begin_receive id s.peer name (sha_hex src) (length src) now s.vault).0 in
      rw (start_from-eq r (length src) (omega arith))
        (on_chunks-Done (length src) nonce id src r _ n lt (omega arith)
          (on_file-Ready id name src now s up k p)).1

  -- If an earlier session left a partial of the announced hash and size, let the bytes on disk be
  -- right as far as its counter goes and be no more than the file has. If all bytes were on disk
  -- when that session ended, but CompleteFile had not run, so that BeginReceive answers the file's
  -- length, the sender sends no chunk and the file stays unreadable on the receiver.
  pub transfer-stuck :
      (nonce id name src : Text) (now : ℕ) (s : Session)
      → Partial s.vault id (sha_hex src) src
      → (begin_receive id s.peer name (sha_hex src) (length src) now s.vault).0 ≡ length src
      → (flush_chunks id src
            (pos (begin_receive id s.peer name (sha_hex src) (length src) now s.vault).0)
          ≡ [])
        × (file_data id (on_file now (header id name (sha_hex src) (length src)) s).0.vault
            ≡ err not_complete)
  unfolding flush_chunks chunk_envelopes on_file header
  transfer-stuck nonce id name src now s p full = (
    rw full (ground (arith, chunks-end (length src) src)),
    file_data-receiving id (sha_hex src) src _ _
        (begin_receive-Arrived id s.peer name (sha_hex src) src now s.vault p),
  )
