-- ===== src/Examples/Transfers.antt =====
-- A file of three bytes is sent, to a new receiver and to one that was cut off.
use chirp.Prelude.{
  ℕ, ◌≡◌, ◌<◌, refl, true, [], ◌∷◌, Text, codes, text_eq, none, some, ok, err, arith, if◌then◌else◌,
}
use chirp.Prelude.Int.{pos}
use chirp.Bytes.Hex
use chirp.Store.Bolt.{find}
use chirp.Store.Rows.{File, receiving, complete, dir_in}
use chirp.Store.Errors.{not_complete}
use chirp.Store.Peers.Trust.{KeysFit}
use chirp.Store.Files.{Vault, find_file, begin_receive, complete_file, file_data, sha_hex}
use chirp.Store.Files.Receive.{Arrived, Partial}
use chirp.Store.Files.Complete.{complete-Arrived, complete_file-checked}
use chirp.Node.Transfer.{Session, no_rx, header, flush_chunks, on_file, on_chunks}
use chirp.Node.Transfer.Delivered.{transfer-Done, transfer-stuck}
use chirp.Examples.Buckets.{rows_bolt}
use chirp.Examples.Setup.{ascii_casing, tag_aead, sum_sha}
use chirp.Examples.Data.{nonce, nonce-IsNonce, locked, locked_store, empty_db, bo}

abbrev pic : Text
pic = codes "abc"

abbrev f1 : Text
f1 = codes "f1"

-- Two of the three bytes are on disk.
abbrev half_row : File
half_row = record {
  id = f1;
  peer = bo;
  dir = dir_in;
  name = codes "pic";
  size = 3;
  hash = sha_hex pic;
  status = receiving;
  received = 2;
  sent = 0;
  ts = 5;
}

abbrev vault_with : File → Text → Vault
vault_with f t = record {
  store = record locked_store { db = record empty_db { files = ((f1, f) ∷ [], tt) } };
  disk = record { temp = λ id. if text_eq f1 id then some t else none; blob = λ id. none };
}

abbrev half : Vault
half = vault_with half_row (codes "ab")

locked-KeysFit : KeysFit locked
locked-KeysFit k e = ground arith

half-Partial : Partial half f1 (sha_hex pic) pic
unfolding find_file find text_eq
half-Partial = record { right = λ f t e d h z. ground arith }

-- All three bytes are there.
abbrev full_row : File
full_row = record half_row { received = 3 }

abbrev full : Vault
full = vault_with full_row pic

full-Arrived : Arrived full f1 (sha_hex pic) pic 3
unfolding find_file find text_eq
full-Arrived = record {
  row = full_row;
  bytes = pic;
  found = refl;
  on_disk = refl;
  status = refl;
  same_hash = refl;
  size = refl;
  received = refl;
  right = (refl, (refl, (refl, tt)));
  short = ground arith;
}

complete_file-checked_example :
    (f : File) × (t : Text) × ((find_file full f1 ≡ some f)
      × (full.disk.temp f1 ≡ some t)
      × (f.received ≡ f.size)
      × (sha_hex t ≡ f.hash)
      × (find_file (complete_file nonce f1 full).1 f1 ≡ some (record f { status = complete }))
      × ((complete_file nonce f1 full).1.disk.temp f1 ≡ none))
complete_file-checked_example =
    complete_file-checked nonce f1 full (complete_file nonce f1 full).1
      (ground (arith, complete-Arrived_ok))
  where
    complete-Arrived_ok : (complete_file nonce f1 full).0 ≡ ok tt
    complete-Arrived_ok =
        (complete-Arrived nonce f1 pic full nonce-IsNonce locked-KeysFit full-Arrived).0

abbrev listening : Vault → Session
listening v = record { peer = bo; resumes = true; rx = no_rx; vault = v; up = true }

ResumesAt : ℕ → Vault → Type 0
ResumesAt r v = (begin_receive f1 bo (codes "pic") (sha_hex pic) 3 7 v).0 ≡ r

half-resumes : ResumesAt 2 half
unfolding ResumesAt begin_receive find_file find text_eq Hex.encode_to_string
half-resumes = refl

transfer-Done_example :
    file_data f1
      (on_chunks nonce
        (flush_chunks f1 pic (pos (begin_receive f1 bo (codes "pic") (sha_hex pic) 3 7 half).0))
        (on_file 7 (header f1 (codes "pic") (sha_hex pic) 3) (listening half)).0).vault
    ≡ ok pic
transfer-Done_example =
    transfer-Done nonce f1 (codes "pic") pic 7 (listening half) nonce-IsNonce refl locked-KeysFit
      half-Partial less
  where
    less : (begin_receive f1 bo (codes "pic") (sha_hex pic) 3 7 half).0 < 3
    less = unfold ResumesAt in ground (arith, half-resumes)

full-Partial : Partial full f1 (sha_hex pic) pic
unfolding find_file find text_eq
full-Partial = record { right = λ f t e d h z. ground arith }

full-resumes : ResumesAt 3 full
unfolding ResumesAt begin_receive find_file find text_eq Hex.encode_to_string
full-resumes = refl

transfer-stuck_example :
    (flush_chunks f1 pic (pos (begin_receive f1 bo (codes "pic") (sha_hex pic) 3 7 full).0) ≡ [])
    × (file_data f1 (on_file 7 (header f1 (codes "pic") (sha_hex pic) 3) (listening full)).0.vault
        ≡ err not_complete)
unfolding ResumesAt
transfer-stuck_example =
    transfer-stuck nonce f1 (codes "pic") pic 7 (listening full) full-Partial full-resumes
