-- ===== src/Node/Outbox/Forced.antt =====
-- A flush at the start of a session: flush of internal/node/node.go with force.
use chirp.Prelude.{
  ℕ, suc, ◌≡◌, refl, true, List, [], ◌∷◌, ◌++◌, ◌&&◌, map, Text, text_eq, text_eq→eq, some, ok, All,
  arith, Option-cases, Result-cases, Bool-cases, inl, inr,
}
use chirp.Crypto.Aead.{Aead}
use chirp.Store.Bolt.{Bolt}
use chirp.Store.Casing.{Casing}
use chirp.Store.Rows.{Message, Db, Store}
use chirp.Store.Seals.{decrypt_string}
use chirp.Store.Messages.{
  load_by_id, put_msg, attempt_db, record_attempt, decrypt_message, pending_rows, insert_by_seq,
  sort_from, sort_by_seq, pending_msgs,
}
use chirp.Store.Messages.Indexed.{Indexed}
use chirp.Node.Outbox.{Timing, and_sent, is_valid, msg_envelope, waits, flush_msgs, flush}

insert_by_seq-All :
    (P : Message → Type 0) (m : Message) (l : List Message)
    → P m
    → All P l
    → All P (insert_by_seq m l)
unfolding insert_by_seq
insert_by_seq-All P m [] p h = (p, tt)
insert_by_seq-All P m (n ∷ l) p h = ground (arith, insert_by_seq-All P m l p h.1)

sort_from-All :
    (P : Message → Type 0) (done l : List Message) → All P done → All P l → All P (sort_from done l)
unfolding sort_from
sort_from-All P done [] d h = d
sort_from-All P done (m ∷ l) d h =
    sort_from-All P (insert_by_seq m done) l (insert_by_seq-All P m done h.0 d) h.1

module _ ⦃bolt : Bolt⦄ ⦃casing : Casing⦄ ⦃a : Aead⦄ where
  -- The row of a message is found, is of its peer and direction, and its body can be read.
  unfoldable pub Readable : Store → Message → Type 0
  Readable s m =
      (r : Message) × (k : Text) × (b : Text) × ((bolt.get s.db.idx m.id ≡ some k)
        × (bolt.get s.db.msgs k ≡ some r)
        × (decrypt_string s.keys r.body ≡ ok b)
        × (r.peer ≡ m.peer)
        × (r.dir ≡ m.dir))

  load_by_id-row :
      (db : Db) (id k : Text) (m : Message)
      → load_by_id db id ≡ ok (m, k)
      → bolt.get db.msgs k ≡ some m
  unfolding load_by_id
  load_by_id-row db id k m h = elim (Option-cases (bolt.get db.idx id)) [
    | inl e ↦ absurd (ground arith)
    | inr (j, e) ↦ elim (Option-cases (bolt.get db.msgs j)) [
      | inl f ↦ absurd (ground arith)
      | inr (q, f) ↦ ground arith
    ]
  ]

  record_attempt-Readable :
      (id : Text) (now : ℕ) (s : Store) (m : Message)
      → Readable s m
      → Readable (record_attempt id now s).1 m
  unfolding Readable record_attempt attempt_db put_msg
  record_attempt-Readable id now s m (r, k, b, h) = elim (Result-cases (load_by_id s.db id)) [
    | inr (x, e) ↦ (r, k, b, ground arith)
    | inl ((q, j), e) ↦ elim (Bool-cases (text_eq j k)) [
      | inl same ↦ (
        tried q,
        k,
        b,
        ground (
          arith,
          bolt.get-put s.db.msgs j k (tried q),
          text_eq→eq j k,
          load_by_id-row s.db id j q e,
        ),
      )
      | inr other ↦ (r, k, b, ground (arith, bolt.get-put s.db.msgs j k (tried q)))
    ]
  ]
    where
      tried : Message → Message
      tried q = record q { attempts = suc q.attempts; last_try = now }

  record_attempt-ok :
      (now : ℕ) (s : Store) (m : Message)
      → Readable s m
      → (n : Message) × ((record_attempt m.id now s).0 ≡ ok n)
  unfolding Readable record_attempt attempt_db load_by_id put_msg decrypt_message
  record_attempt-ok now s m (r, k, b, (i, g, d, p, o)) =
      (record r { attempts = suc r.attempts; last_try = now; body = b }, ground arith)

  pending_rows-Readable :
      (peer : Text) (s : Store) (l : List (Text × Text)) (out : List Message)
      → Indexed s.db
      → pending_rows s.keys (bolt.get s.db.msgs) peer l ≡ ok out
      → All (Readable s) out
  unfolding pending_rows decrypt_message Readable
  pending_rows-Readable peer s [] out w h = ground arith
  pending_rows-Readable peer s ((id, k) ∷ l) out w h = elim (Option-cases (bolt.get s.db.msgs k)) [
    | inl e ↦ ground (arith, pending_rows-Readable peer s l out w)
    | inr (m, e) ↦ elim (Result-cases (decrypt_string s.keys m.body)) [
      | inr (x, d) ↦ absurd (ground arith)
      | inl (b, d) ↦ elim (Result-cases (pending_rows s.keys (bolt.get s.db.msgs) peer l)) [
        | inr (x, q) ↦ absurd (ground arith)
        | inl (rest, q) ↦
            let i = (w.at_key k m e).0 in
            let first : Readable s (record m { body = b }) = (m, k, b, (i, e, d, refl, refl)) in
            ground (arith, first, pending_rows-Readable peer s l rest w q)
      ]
    ]
  ]

  All-Readable :
      (id : Text) (now : ℕ) (s : Store) (l : List Message)
      → All (Readable s) l
      → All (Readable (record_attempt id now s).1) l
  All-Readable id now s [] h = tt
  All-Readable id now s (m ∷ l) h =
      (record_attempt-Readable id now s m h.0, All-Readable id now s l h.1)

  pending_msgs-Readable :
      (peer : Text) (s : Store) (l : List Message)
      → Indexed s.db
      → pending_msgs peer s ≡ ok l
      → All (Readable s) l
  unfolding pending_msgs sort_by_seq
  pending_msgs-Readable peer s l w h =
      elim (Result-cases (pending_rows s.keys (bolt.get s.db.msgs) peer (bolt.pairs s.db.outbox))) [
        | inr (x, e) ↦ absurd (ground arith)
        | inl (out, e) ↦
            let done =
              sort_from-All (Readable s) [] out tt
                (pending_rows-Readable peer s (bolt.pairs s.db.outbox) out w e) in
            let same : sort_from [] out ≡ l = ground arith in rw same at done
      ]

  flush_msgs-forced :
      (t : Timing) (l : List Message) (s : Store)
      → t.force ≡ true
      → t.writes ≡ true
      → All (λ m. is_valid (msg_envelope m) ≡ true) l
      → All (Readable s) l
      → ((flush_msgs t l s).sent ≡ map msg_envelope l) × ((flush_msgs t l s).up ≡ true)
  unfolding flush_msgs waits and_sent
  flush_msgs-forced t [] s f w v r = (refl, refl)
  flush_msgs-forced t (m ∷ l) s f w v r =
      let (n, e) = record_attempt-ok t.now s m r.0 in
      let u = (record_attempt m.id t.now s).1 in
      ground (arith, flush_msgs-forced t l u f w v.1 (All-Readable m.id t.now s l r.1))

  flush_msgs-Readable :
      (t : Timing) (l : List Message) (s : Store) (m : Message)
      → Readable s m
      → Readable (flush_msgs t l s).store m
  unfolding flush_msgs and_sent
  flush_msgs-Readable t [] s m r = r
  flush_msgs-Readable t (n ∷ l) s m r =
      let u = (record_attempt n.id t.now s).1 in
      let next = record_attempt-Readable n.id t.now s m r in
      let kept = flush_msgs-Readable t l s m r in
      let more = flush_msgs-Readable t l u m next in
      elim (Bool-cases (waits t n)) [
        | inl y ↦ rw y kept
        | inr y ↦ elim (Result-cases (record_attempt n.id t.now s).0) [
          | inr (x, e) ↦ rw (y, e) more
          | inl (q, e) ↦ elim (Bool-cases (is_valid (msg_envelope n) && t.writes)) [
            | inl v ↦ rw (y, e, v) more
            | inr v ↦ rw (y, e, v) next
          ]
        ]
      ]

  All-middle :
      (P : Message → Type 0) (front back : List Message) (m : Message)
      → All P (front ++ (m ∷ back))
      → P m
  All-middle P [] back m h = h.0
  All-middle P (n ∷ front) back m h = All-middle P front back m h.1

  -- A message that waits still has its row after a flush.
  pub flush-Readable :
      (t : Timing) (peer : Text) (s : Store) (front back : List Message) (m : Message)
      → Indexed s.db
      → pending_msgs peer s ≡ ok (front ++ (m ∷ back))
      → Readable (flush t peer s).store m
  unfolding flush
  flush-Readable t peer s front back m w p =
      let l = front ++ (m ∷ back) in
      rw (flush, p)
        (flush_msgs-Readable t l s m
          (All-middle (Readable s) front back m (pending_msgs-Readable peer s l w p)))

  pub flush-forced :
      (t : Timing) (peer : Text) (s : Store) (l : List Message)
      → Indexed s.db
      → pending_msgs peer s ≡ ok l
      → t.force ≡ true
      → t.writes ≡ true
      → All (λ m. is_valid (msg_envelope m) ≡ true) l
      → ((flush t peer s).sent ≡ map msg_envelope l) × ((flush t peer s).up ≡ true)
  unfolding flush
  flush-forced t peer s l w p f ws v =
      rw (flush, p) (flush_msgs-forced t l s f ws v (pending_msgs-Readable peer s l w p))
