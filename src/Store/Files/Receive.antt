-- ===== src/Store/Files/Receive.antt =====
-- An inbound transfer: BeginReceive, the chunks in order, CompleteFile.
use chirp.Prelude.{
  ℕ, zero, suc, ◌+◌, ◌≤◌, ◌≡◌, ◌⊎◌, refl, ap, false, [], Text, text_eq_refl, text_eq→eq, Option,
  none, some, ok, ltb, ◌==◌, length, length-append, length-drop, arith, if◌then◌else◌, Option-cases,
  Bool-cases, inl, inr,
}
use chirp.Store.Bolt.{Bolt}
use chirp.Store.Rows.{File, receiving}
use chirp.Store.Files.{
  Vault, find_file, put_file, set_temp, write_at, bytes_of, after_chunk, resume_from, begin_row,
  begin_receive, write_chunk,
}
use chirp.Store.Files.Bytes.{
  Holds, Holds-length, Holds-le, IsChunk, write_at-Holds, write_at-new, length-write_at,
}

module _ ⦃bolt : Bolt⦄ where
  pub find_file-put_file :
      (v : Vault) (id : Text) (f : File) → find_file (put_file id f v) id ≡ some f
  unfolding find_file put_file
  find_file-put_file v id f = rw (bolt.get-put v.store.db.files id id f, text_eq_refl id)

  temp-set_temp : (v : Vault) (id : Text) (t : Option Text) → (set_temp id t v).disk.temp id ≡ t
  unfolding set_temp
  temp-set_temp v id t = rw (text_eq_refl id)

  temp-put_file : (v : Vault) (id : Text) (f : File) → (put_file id f v).disk ≡ v.disk
  unfolding put_file
  temp-put_file v id f = refl

  find_file-set_temp :
      (v : Vault) (id j : Text) (t : Option Text) → find_file (set_temp id t v) j ≡ find_file v j
  unfolding find_file set_temp
  find_file-set_temp v id j t = refl

  -- `r` bytes of the source have arrived under the header that was announced, and all on disk is
  -- no longer than the source.
  pub record Arrived (v : Vault) (id hash src : Text) (r : ℕ) : Type 0 where
    pub row : File
    pub bytes : Text
    pub found : find_file v id ≡ some row
    pub on_disk : v.disk.temp id ≡ some bytes
    pub status : row.status ≡ receiving
    pub same_hash : row.hash ≡ hash
    pub size : row.size ≡ length src
    pub received : row.received ≡ r
    pub right : Holds r bytes src
    pub short : length bytes ≤ length src

  -- A partial left by an earlier session, perhaps by a crash that cut the bytes on disk: if it has
  -- the announced hash and size, the bytes that the counter vouches for are right.
  pub record Partial (v : Vault) (id hash src : Text) : Type 0 where
    pub right :
        (f : File) (t : Text)
        → find_file v id ≡ some f
        → v.disk.temp id ≡ some t
        → f.hash ≡ hash
        → f.size ≡ length src
        → Holds (if ltb (length t) f.received then length t else f.received) t src
          × (length t ≤ length src)

  -- The resume offset vouches for bytes that are right.
  resume_from-Holds :
      (id hash src : Text) (v : Vault) (t : Text)
      → Partial v id hash src
      → v.disk.temp id ≡ some t
      → (resume_from hash (length src) (find_file v id) (v.disk.temp id) ≡ 0)
        ⊎ (Holds (resume_from hash (length src) (find_file v id) (v.disk.temp id)) t src
            × (length t ≤ length src))
  unfolding resume_from
  resume_from-Holds id hash src v t p d = elim (Option-cases (find_file v id)) [
    | inl e ↦ inl (rw e refl)
    | inr (f, e) ↦ ground (arith, text_eq→eq f.hash hash, p.right f t e d)
  ]

  -- A start from zero.
  begun_afresh :
      (id peer name hash src : Text) (now : ℕ) (v : Vault)
      → Arrived
          (put_file id (begin_row id peer name hash (length src) 0 now) (set_temp id (some []) v))
          id
          hash
          src
          0
  unfolding begin_row
  begun_afresh id peer name hash src now v = record {
    row = begin_row id peer name hash (length src) 0 now;
    bytes = [];
    found = find_file-put_file _ id _;
    on_disk = ground (
      arith,
      temp-put_file (set_temp id (some []) v) id (begin_row id peer name hash (length src) 0 now),
      temp-set_temp v id (some []),
    );
    status = refl;
    same_hash = refl;
    size = refl;
    received = refl;
    right = tt;
    short = omega arith;
  }

  -- Going on from the bytes on disk.
  begun_again :
      (id peer name hash src t : Text) (now r : ℕ) (v : Vault)
      → v.disk.temp id ≡ some t
      → Holds r t src
      → length t ≤ length src
      → Arrived (put_file id (begin_row id peer name hash (length src) r now) v) id hash src r
  unfolding begin_row
  begun_again id peer name hash src t now r v d h le = record {
    row = begin_row id peer name hash (length src) r now;
    bytes = t;
    found = find_file-put_file _ id _;
    on_disk = ground (arith, temp-put_file v id (begin_row id peer name hash (length src) r now));
    status = refl;
    same_hash = refl;
    size = refl;
    received = refl;
    right = h;
    short = le;
  }

  resume_from-none : (hash : Text) (size : ℕ) (o : Option File) → resume_from hash size o none ≡ 0
  unfolding resume_from
  resume_from-none hash size none = refl
  resume_from-none hash size (some f) = refl

  suc-ne-zero : (r : ℕ) → (suc r == 0) ≡ false
  suc-ne-zero r = ground arith

  -- Whatever an earlier session left of a file, if its bytes are right as far as its counter and
  -- the disk go, the offset that BeginReceive answers counts bytes of the announced file that are
  -- on disk.
  pub begin_receive-Arrived :
      (id peer name hash src : Text) (now : ℕ) (v : Vault)
      → Partial v id hash src
      → Arrived
          (begin_receive id peer name hash (length src) now v).1
          id
          hash
          src
          (begin_receive id peer name hash (length src) now v).0
  unfolding begin_receive
  begin_receive-Arrived id peer name hash src now v p =
      go (resume_from hash (length src) (find_file v id) (v.disk.temp id)) refl
    where
      go :
          (r : ℕ)
          → resume_from hash (length src) (find_file v id) (v.disk.temp id) ≡ r
          → Arrived
              (put_file id
                (begin_row id peer name hash (length src) r now)
                (if r == 0 then set_temp id (some []) v else v))
              id
              hash
              src
              r
      go zero e = begun_afresh id peer name hash src now v
      go (suc r) e = elim (Option-cases (v.disk.temp id)) [
        | inl d ↦ absurd (ground (arith, resume_from-none hash (length src) (find_file v id)))
        | inr (t, d) ↦ elim (resume_from-Holds id hash src v t p d) [
          | inl z ↦ absurd (ground arith)
          | inr (h, le) ↦
              rw (suc-ne-zero r)
                (begun_again id peer name hash src t now (suc r) v d (rw e at h) le)
        ]
      ]

  abbrev pub high_mark : ℕ → ℕ → ℕ
  high_mark r end = if ltb r end then end else r

  -- What WriteChunk does with a chunk that starts inside what has arrived and ends in the file.
  write_chunk-eq :
      (id chunk t : Text) (offset : ℕ) (v : Vault) (row : File)
      → find_file v id ≡ some row
      → v.disk.temp id ≡ some t
      → offset ≤ row.received
      → high_mark row.received (offset + length chunk) ≤ row.size
      → write_chunk id offset chunk v ≡ (
        ok (record row { received = high_mark row.received (offset + length chunk) }),
        put_file id
            (record row { received = high_mark row.received (offset + length chunk) })
            (set_temp id (some (write_at t offset chunk)) v),
      )
  unfolding write_chunk
  write_chunk-eq id chunk t offset v row f d le hi =
      ground (arith, find_file-set_temp v id id (some (write_at t offset chunk)))

  chunk_end :
      (src chunk : Text) (offset : ℕ)
      → IsChunk src offset chunk
      → offset ≤ length src
      → offset + length chunk ≤ length src
  chunk_end src chunk offset (rest, e) le =
      omega (arith, ap length e, length-append chunk rest, length-drop offset src)

  -- A chunk of the source that starts inside what has arrived is accepted, and everything up to the
  -- larger of its end and the old counter has then arrived; nothing that was right is spoilt.
  pub write_chunk-Arrived :
      (id hash src chunk : Text) (offset r : ℕ) (v : Vault)
      → Arrived v id hash src r
      → offset ≤ r
      → IsChunk src offset chunk
      → (f : File) × ((write_chunk id offset chunk v).0 ≡ ok f)
        × (f.received ≡ high_mark r (offset + length chunk))
        × Arrived
            (write_chunk id offset chunk v).1
            id
            hash
            src
            (high_mark r (offset + length chunk))
  write_chunk-Arrived id hash src chunk offset r v a le c =
      let fits = Holds-length r a.bytes src a.right in
      let room = chunk_end src chunk offset c (omega arith) in
      let eq =
        write_chunk-eq id chunk a.bytes offset v a.row a.found a.on_disk
          (ground (arith, a.received)) (ground (arith, a.received, a.size)) in
      let high = high_mark a.row.received (offset + length chunk) in
      let row : File = record (a.row) { received = high } in
      let w = set_temp id (some (write_at a.bytes offset chunk)) v in
      (
        row,
        ap (λ p. p.0) eq,
        ap (λ (n : ℕ). high_mark n (offset + length chunk)) a.received,
        rw eq (record {
          row = row;
          bytes = write_at a.bytes offset chunk;
          found = find_file-put_file w id row;
          on_disk = unfold put_file in temp-set_temp v id (some (write_at a.bytes offset chunk));
          status = a.status;
          same_hash = a.same_hash;
          size = a.size;
          received = ap (λ (n : ℕ). high_mark n (offset + length chunk)) a.received;
          right = written r offset a.bytes src chunk a.right le c;
          short =
              length-write_at offset a.bytes src chunk (Holds-le offset r a.bytes src le a.right)
                a.short c;
        }),
      )
    where
      written :
          (r offset : ℕ) (t src chunk : Text)
          → Holds r t src
          → offset ≤ r
          → IsChunk src offset chunk
          → Holds (high_mark r (offset + length chunk)) (write_at t offset chunk) src
      written r offset t src chunk h le c = elim (Bool-cases (ltb r (offset + length chunk))) [
        | inl e ↦ rw e (write_at-new offset t src chunk (Holds-le offset r t src le h) c)
        | inr e ↦ rw e (write_at-Holds r offset t src chunk h c)
      ]

  pub write_chunk-keys :
      (id c : Text) (off : ℕ) (v : Vault) → (write_chunk id off c v).1.store.keys ≡ v.store.keys
  unfolding write_chunk after_chunk put_file set_temp
  write_chunk-keys id c off v =
      let w = set_temp id (some (write_at (bytes_of (v.disk.temp id)) off c)) v in
      ground (arith, Option-cases (find_file w id))

  pub begin_receive-keys :
      (id peer name hash : Text) (size now : ℕ) (v : Vault)
      → (begin_receive id peer name hash size now v).1.store.keys ≡ v.store.keys
  unfolding begin_receive put_file set_temp
  begin_receive-keys id peer name hash size now v =
      ground (arith, Bool-cases (resume_from hash size (find_file v id) (v.disk.temp id) == 0))
