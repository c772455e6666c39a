-- ===== src/Store/Messages/History.antt =====
-- Every sequence of operations on messages, from a store that is well formed, failures included.
use chirp.Prelude.{
  ℕ, suc, ◌+◌, ◌<◌, ◌≤◌, ◌≡◌, refl, Bool, true, List, [], ◌∷◌, Text, Option, none, some, ok, err,
  arith, length, Result-cases, inl, inr,
}
use chirp.Crypto.Aead.{Aead}
use chirp.Store.Bolt.{Bolt}
use chirp.Store.Casing.{Casing}
use chirp.Store.Rows.{Message, delivered, Db, Store}
use chirp.Store.Errors.{Res}
use chirp.Store.Seals.{encrypt_string}
use chirp.Store.Peers.{peer_key}
use chirp.Store.Messages.{
  load_by_id, put_msg, remove_msg, delivered_db, attempt_db, add_row, deliver_row, add_message,
  mark_delivered, record_attempt, delete_from_outbox, delete_message, delete_messages,
  delete_all_messages, prune, prunes, forget_peer, remove_all, chosen,
}
use chirp.Store.Messages.Indexed.{
  Indexed, add_row-Indexed, remove_msg-Indexed, put_msg-Indexed, delivered_db-Indexed,
  load_by_id-eq,
}
use chirp.Store.Messages.Mail.{Next}
use chirp.Store.Messages.Removal.{delete_messages-Indexed}

-- The calls that change messages. The nonce is the one that the call draws.
data MsgOp : Type 0 where
  add : Text → Message → MsgOp
  deliver : Text → Text → MsgOp
  attempt : Text → ℕ → MsgOp
  cancel : Text → MsgOp
  delete : Text → MsgOp
  delete_all : MsgOp
  prune_before : ℕ → MsgOp
  forget : Text → MsgOp

module _ ⦃bolt : Bolt⦄ ⦃casing : Casing⦄ ⦃a : Aead⦄ where
  -- A transaction that fails is rolled back.
  unfoldable pub committed : Store → Res Db → Store
  committed s (ok db) = record s { db = db }
  committed s (err e) = s

  step : MsgOp → Store → Store
  unfolding committed
  step (add nonce m) s = (add_message nonce m s).1
  step (deliver peer id) s = (mark_delivered peer id s).1
  step (attempt id now) s = (record_attempt id now s).1
  step (cancel id) s = committed s (delete_from_outbox id s.db)
  step (delete id) s = committed s (delete_message id s.db)
  step delete_all s = record s { db = delete_all_messages s.db }
  step (prune_before cutoff) s = record s { db = prune cutoff s.db }
  step (forget name) s = record s { db = forget_peer name s.db }

  run : List MsgOp → Store → Store
  run [] s = s
  run (op ∷ ops) s = run ops (step op s)

  pub add-Next :
      (nonce : Text) (m : Message) (s : Store)
      → Indexed s.db
      → suc s.db.msgs_seq < 18446744073709551616
      → Next s (add_message nonce m s).1
  unfolding add_message
  add-Next nonce m s w b = elim (Result-cases (encrypt_string nonce s.keys m.body)) [
    | inr (x, e) ↦ ground arith
    | inl (body, e) ↦
        let n : Message = record m { body = body } in
        ground (arith, add_row-Indexed n s.db w b, seq_le n (bolt.get s.db.idx m.id))
  ]
    where
      seq_le : (n : Message) (o : Option Text) → (add_row n o s.db).1.msgs_seq ≤ suc s.db.msgs_seq
      seq_le n none = unfold add_row in omega arith
      seq_le n (some k) = unfold add_row in omega arith

  delivered_seq :
      (id k : Text) (m : Message) (db : Db) → (delivered_db id k m db).msgs_seq ≡ db.msgs_seq
  unfolding delivered_db put_msg
  delivered_seq id k m db = refl

  removed_seq : (k id : Text) (db : Db) → (remove_msg k id db).msgs_seq ≡ db.msgs_seq
  unfolding remove_msg
  removed_seq k id db = refl

  put_seq : (k : Text) (m : Message) (db : Db) → (put_msg k m db).msgs_seq ≡ db.msgs_seq
  unfolding put_msg
  put_seq k m db = refl

  pub deliver-Next :
      (peer id : Text) (s : Store) → Indexed s.db → Next s (mark_delivered peer id s).1
  unfolding mark_delivered deliver_row
  deliver-Next peer id s w = elim (Result-cases (load_by_id s.db id)) [
    | inr (x, e) ↦ ground arith
    | inl ((m, k), e) ↦
        let (g, i, x) = load_by_id-eq s.db id k m w e in
        let kept : Indexed (delivered_db id k (record m { status = delivered }) s.db) =
          rw (← i) (delivered_db-Indexed k m s.db w g) in
        ground (arith, kept, delivered_seq id k (record m { status = delivered }) s.db)
  ]

  pub attempt-Next :
      (id : Text) (now : ℕ) (s : Store) → Indexed s.db → Next s (record_attempt id now s).1
  unfolding record_attempt attempt_db
  attempt-Next id now s w = elim (Result-cases (load_by_id s.db id)) [
    | inr (x, e) ↦ ground arith
    | inl ((m, k), e) ↦
        let (g, i, x) = load_by_id-eq s.db id k m w e in
        ground (
          arith,
          put_msg-Indexed k m (record m { attempts = suc m.attempts; last_try = now }) s.db w g refl
              refl refl refl,
          put_seq k (record m { attempts = suc m.attempts; last_try = now }) s.db,
        )
  ]

  pub cancel-Next :
      (id : Text) (s : Store) → Indexed s.db → Next s (committed s (delete_from_outbox id s.db))
  unfolding committed delete_from_outbox
  cancel-Next id s w = elim (Result-cases (load_by_id s.db id)) [
    | inr (x, e) ↦ ground arith
    | inl ((m, k), e) ↦
        let (g, i, x) = load_by_id-eq s.db id k m w e in
        let kept : Indexed (remove_msg k id s.db) = rw (← i) (remove_msg-Indexed k m s.db w g) in
        ground (arith, kept, removed_seq k id s.db)
  ]

  pub delete-Next :
      (id : Text) (s : Store) → Indexed s.db → Next s (committed s (delete_message id s.db))
  unfolding committed delete_message
  delete-Next id s w = elim (Result-cases (load_by_id s.db id)) [
    | inr (x, e) ↦ ground arith
    | inl ((m, k), e) ↦
        let (g, i, x) = load_by_id-eq s.db id k m w e in
        ground (arith, remove_msg-Indexed k m s.db w g, removed_seq k m.id s.db)
  ]

  remove_all-seq : (l : List (Text × Text)) (db : Db) → (remove_all l db).msgs_seq ≡ db.msgs_seq
  unfolding remove_all remove_msg
  remove_all-seq [] db = refl
  remove_all-seq ((k, id) ∷ l) db = remove_all-seq l (remove_msg k id db)

  pub deleted-Next :
      (pred : Message → Bool) (s : Store)
      → Indexed s.db
      → Next s (record s { db = delete_messages pred s.db })
  deleted-Next pred s w = (
    delete_messages-Indexed pred s.db w,
    unfold delete_messages in
        omega (arith, remove_all-seq (chosen pred (bolt.pairs s.db.msgs)) s.db),
  )

  pub forget-Next :
      (name : Text) (s : Store) → Indexed s.db → Next s (record s { db = forget_peer name s.db })
  unfolding forget_peer
  forget-Next name s w =
      deleted-Next (λ m. casing.equal_fold m.peer name) (record s { db = unpinned }) less
    where
      unpinned : Db
      unpinned = record (s.db) { peers = bolt.delete s.db.peers (peer_key name) }

      less : Indexed unpinned
      less = record { row_of = w.row_of; at_key = w.at_key; waits = w.waits; unsent = w.unsent }

  step-Next :
      (op : MsgOp) (s : Store)
      → Indexed s.db
      → suc s.db.msgs_seq < 18446744073709551616
      → Next s (step op s)
  unfolding step delete_all_messages prune
  step-Next (add nonce m) s w b = add-Next nonce m s w b
  step-Next (deliver peer id) s w b = deliver-Next peer id s w
  step-Next (attempt id now) s w b = attempt-Next id now s w
  step-Next (cancel id) s w b = cancel-Next id s w
  step-Next (delete id) s w b = delete-Next id s w
  step-Next delete_all s w b = deleted-Next (λ m. true) s w
  step-Next (prune_before cutoff) s w b = deleted-Next (prunes cutoff) s w
  step-Next (forget name) s w b = forget-Next name s w

  -- From a store whose rows, index and outbox agree, any sequence of adding, acknowledging,
  -- retrying, cancelling, deleting, pruning and forgetting, failures included, leads to a store
  -- where they agree: each id leads to its row, each row stands at the key of its peer and number,
  -- and the outbox holds exactly the outbound messages that are not delivered. The numbers in use
  -- and the calls to come must fit in 64 bits.
  run-Indexed :
      (ops : List MsgOp) (s : Store)
      → Indexed s.db
      → s.db.msgs_seq + length ops < 18446744073709551616
      → Indexed (run ops s).db
  unfolding run
  run-Indexed [] s w b = w
  run-Indexed (op ∷ ops) s w b =
      let (next, le) = step-Next op s w (omega arith) in
      run-Indexed ops (step op s) next (omega (arith, le))
