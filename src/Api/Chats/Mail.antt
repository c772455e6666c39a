-- ===== src/Api/Chats/Mail.antt =====
-- What the handlers of peers and their messages in internal/api/api.go do to the messages.
use chirp.Prelude.{
  ◌≡◌, ◌⊎◌, ℕ, suc, ◌<◌, refl, Bool, Text, Option, none, some, Result, ok, err, arith, Result-cases,
  Bool-cases, inl, inr,
}
use chirp.Crypto.Aead.{Aead}
use chirp.Identity.Fingerprint.{Sha256}
use chirp.Store.Bolt.{Bolt}
use chirp.Store.Casing.{Casing}
use chirp.Store.Rows.{Peer, Store}
use chirp.Store.Errors.{StoreError, not_found}
use chirp.Store.Messages.{delete_from_outbox, delete_message}
use chirp.Store.Messages.Indexed.{Indexed}
use chirp.Store.Messages.Mail.{SameMail, Next, Quiet}
use chirp.Store.Messages.Beside.{delete_from_outbox-peers, delete_message-peers}
use chirp.Store.Messages.History.{committed, cancel-Next, delete-Next, forget-Next}
use chirp.Store.Meta.{Identity}
use chirp.Store.Peers.{set_verified, accept_pending_key}
use chirp.Store.Peers.History.{step, verifies, Keeps, peers-Keeps, Keeps-then, verify-Keeps}
use chirp.Store.Peers.Mail.{set_verified-SameMail, accept_pending_key-SameMail}
use chirp.Node.Views.{forget}
use chirp.Node.Sessions.{DialError, establish}
use chirp.Node.Outbox.Mail.{send_reply-Quiet, establish-SameMail, establish-Keeps}
use chirp.Api.Server.{Machine, World, rows_of}
use chirp.Api.Chats.{
  Reached, verify_peer, delete_outbox, forget_name, delete_one, send_to_peer, accept_key, accepted,
  dial_address, dialled,
}
use chirp.Api.Server.Mail.{After, Served, same-After, unchanged-Served}
use chirp.Api.Answers.{write_err}

module _ ⦃bolt : Bolt⦄ ⦃casing : Casing⦄ where
  pub verify_peer-SameMail :
      (name : Text) (body : Option Bool) (m : Machine)
      → SameMail (verify_peer name body m).1.db m.db
  unfolding verify_peer
  verify_peer-SameMail name none m = (refl, refl, refl, refl)
  verify_peer-SameMail name (some v) m = elim (Result-cases (set_verified name v (rows_of m))) [
    | inr (x, e) ↦ ground arith
    | inl (t, e) ↦ ground (arith, set_verified-SameMail name v (rows_of m) t e)
  ]

module _ ⦃bolt : Bolt⦄ ⦃casing : Casing⦄ ⦃a : Aead⦄ where
  pub forget_name-After : (name : Text) (m : Machine) → Indexed m.db → After m (forget_name name m)
  unfolding forget_name forget
  forget_name-After name m w = forget-Next name (rows_of m) w

  pub delete_outbox-Quiet :
      (id : Text) (m : Machine) → Indexed m.db → Quiet (rows_of m) (rows_of (delete_outbox id m).1)
  unfolding delete_outbox committed
  delete_outbox-Quiet id m w =
      let next : Next (rows_of m) (committed (rows_of m) (delete_from_outbox id m.db)) =
        cancel-Next id (rows_of m) w in
      elim (Result-cases (delete_from_outbox id m.db)) [
        | inr (x, e) ↦ ground (arith, w)
        | inl (db, e) ↦ ground (arith, delete_from_outbox-peers id m.db db e)
      ]

  pub delete_one-Quiet :
      (w : World) (id everyone peer : Text) (m : Machine)
      → Indexed m.db
      → Quiet (rows_of m) (rows_of (delete_one w id everyone peer m).1)
  unfolding delete_one committed
  delete_one-Quiet w id everyone peer m i =
      let next : Next (rows_of m) (committed (rows_of m) (delete_message id m.db)) =
        delete-Next id (rows_of m) i in
      elim (Result-cases (delete_message id m.db)) [
        | inr (x, e) ↦ ground (arith, i)
        | inl (db, e) ↦ ground (arith, i, delete_message-peers id m.db db e)
      ]

  pub send_to_peer-Quiet :
      (w : World) (name : Text) (body : Option (Text × Text)) (m : Machine)
      → Indexed m.db
      → suc m.db.msgs_seq < 18446744073709551616
      → Quiet (rows_of m) (rows_of (send_to_peer w name body m).1)
  unfolding send_to_peer
  send_to_peer-Quiet w name none m i b = ground (arith, i)
  send_to_peer-Quiet w name (some (text, reply_to)) m i b =
      let next = send_reply-Quiet w.nonce w.id w.now name text reply_to (rows_of m) i b in
      ground arith

module _ ⦃bolt : Bolt⦄ ⦃casing : Casing⦄ ⦃a : Aead⦄ ⦃sha : Sha256⦄ where
  pub accept_key-SameMail : (name : Text) (m : Machine) → SameMail (accept_key name m).1.db m.db
  unfolding accept_key
  accept_key-SameMail name m = elim (Result-cases (accept_pending_key name (rows_of m))) [
    | inr (x, e) ↦ rw e (refused x)
    | inl (t, e) ↦ rw e (accept_pending_key-SameMail name (rows_of m) t e)
  ]
    where
      refused : (x : StoreError) → SameMail (accepted (err x) m).1.db m.db
      refused not_found = (refl, refl, refl, refl)
      refused x = ground arith

  dialled-db :
      (link : ℕ) (r : Result DialError Peer × Store) (m : Machine)
      → (dialled link r m).1.db ≡ r.1.db
  dialled-db link (ok p, s) m = refl
  dialled-db link (err DialError.fp_mismatch, s) m = refl
  dialled-db link (err _, s) m = refl

  pub dial_address-Served :
      (w : World) (r : Reached) (body : Option Text) (id : Identity) (m : Machine)
      → Indexed m.db
      → Served m (dial_address w r body id m)
  unfolding dial_address
  dial_address-Served w r none id m i = unchanged-Served m (write_err 400, m) refl i
  dial_address-Served w r (some want) id m i = elim (Bool-cases r.connects) [
    | inr n ↦ rw n (unchanged-Served m (write_err 502, m) refl i)
    | inl y ↦
        let found = establish w.nonce w.now id.public want r.remote (rows_of m) in
        let same = dialled-db r.link found m in
        rw y (
          same-After m (dialled r.link found m)
              (ground (arith, establish-SameMail w.nonce w.now id.public want r.remote (rows_of m)))
              i,
          λ n f.
              Keeps-then (rows_of m) found.1 (rows_of (dialled r.link found m).1) n
                (establish-Keeps w.nonce w.now id.public want r.remote (rows_of m) n f)
                (peers-Keeps found.1 (rows_of (dialled r.link found m).1) n (ground arith)),
        )
  ]

  pub verify_peer-Served :
      (name : Text) (body : Option Bool) (m : Machine)
      → Indexed m.db
      → Served m (verify_peer name body m)
  unfolding verify_peer step
  verify_peer-Served name none m i = unchanged-Served m (write_err 400, m) refl i
  verify_peer-Served name (some v) m i = (
    same-After m (verify_peer name (some v) m) (verify_peer-SameMail name (some v) m) i,
    λ n f.
        verified n (Result-cases (set_verified name v (rows_of m)))
          (verify-Keeps name v (rows_of m) n f),
  )
    where
      verified :
          (n : Text)
          → ((t : Store) × (set_verified name v (rows_of m) ≡ ok t))
            ⊎ ((x : StoreError) × (set_verified name v (rows_of m) ≡ err x))
          → Keeps (rows_of m) (step (rows_of m) (verifies name v)) n
          → Keeps (rows_of m) (rows_of (verify_peer name (some v) m).1) n
      verified n (inl (t, e)) k =
          Keeps-then (rows_of m) t (rows_of (verify_peer name (some v) m).1) n (rw e at k)
            (peers-Keeps t (rows_of (verify_peer name (some v) m).1) n (ground arith))
      verified n (inr (x, e)) k =
          Keeps-then (rows_of m) (rows_of m) (rows_of (verify_peer name (some v) m).1) n (rw e at k)
            (peers-Keeps (rows_of m) (rows_of (verify_peer name (some v) m).1) n (ground arith))
