-- ===== src/Node/Views.antt =====
-- What the user asks of a peer's session, and of our own name: Forget, Rename, SendReaction,
-- SendTyping, SendReadReceipt, DeleteMessageForEveryone and RemoteCaps of internal/node/views.go.
-- `writes` says which sessions take what is written. Events, log lines and the announcement after a
-- rename are left out.
use chirp.Prelude.{
  ℕ, ◌≡◌, Bool, true, not, List, [], ◌∷◌, Text, Option, none, some, Result, ok, err, ◌>>◌, guard,
  wrap, if◌then◌else◌, arith, Option-cases, Result-cases, Bool-cases, inl, inr,
}
use chirp.Crypto.Aead.{Aead}
use chirp.Identity.Names.{validate_name}
use chirp.Proto.Envelope.{Envelope, MsgType, Invalid, validate}
use chirp.Store.Bolt.{Bolt}
use chirp.Store.Casing.{Casing}
use chirp.Store.Rows.{Store}
use chirp.Store.Errors.{StoreError}
use chirp.Store.Messages.{forget_peer}
use chirp.Store.Seals.{decrypt}
use chirp.Store.Meta.{Identity, Opened, settings, rename_identity, load_record, load_identity}
use chirp.Node.Sessions.{Table, link_for, is_link}
use chirp.Node.Transfer.{bare}

pub data SignalError : Type 0 where
  no_session not_written : SignalError
  invalid : Invalid → SignalError

pub data RenameError : Type 0 where
  bad_display_name : RenameError
  store : StoreError → RenameError

-- link.send over the session of a name: Encode refuses what is not valid.
unfoldable pub send_over :
    (Text → Option ℕ) → (ℕ → Bool) → Text → Envelope → Result SignalError (List Envelope)
send_over live writes key e = elim (live key) [
  | none ↦ err no_session
  | some l ↦ do wrap invalid (validate e); guard (writes l) not_written; ok (e ∷ [])
]

module _ ⦃casing : Casing⦄ where
  unfoldable pub send_to : Table → (ℕ → Bool) → Text → Envelope → Result SignalError (List Envelope)
  send_to t writes peer e = send_over (λ key. link_for key t) writes (casing.to_lower peer) e

  unfoldable pub send_reaction :
      Table → (ℕ → Bool) → Text → Text → Text → Result SignalError (List Envelope)
  send_reaction t writes peer emoji target =
      send_to t writes peer (record (bare MsgType.react) { emoji = emoji; target = target })

  -- Typing and read receipts are opt-in.
  unfoldable pub send_typing :
      Opened → Table → (ℕ → Bool) → Text → Result SignalError (List Envelope)
  send_typing s t writes peer =
      if not (settings s).typing then ok [] else send_to t writes peer (bare MsgType.typing)

  unfoldable pub send_read_receipt :
      Opened → Table → (ℕ → Bool) → Text → Text → Result SignalError (List Envelope)
  send_read_receipt s t writes peer target =
      if not (settings s).receipts
      then ok []
      else send_to t writes peer (record (bare MsgType.read) { target = target })

  unfoldable pub delete_message_for_everyone :
      Table → (ℕ → Bool) → Text → Text → Result SignalError (List Envelope)
  delete_message_for_everyone t writes peer target =
      send_to t writes peer (record (bare MsgType.delall) { target = target })

  unfoldable pub remote_caps : Table → (ℕ → List Text) → Text → List Text
  remote_caps t caps peer = elim (link_for (casing.to_lower peer) t) [ none ↦ [] | some l ↦ caps l ]

  -- The identity in memory takes the name of the record.
  unfoldable pub rename : Text → Opened → Result RenameError Opened
  rename name s = elim (validate_name name) [
    | err e ↦ err bad_display_name
    | ok valid ↦ wrap store (rename_identity valid s)
  ]

  module _ ⦃bolt : Bolt⦄ where
    -- The session is closed first, whatever the store answers.
    unfoldable pub forget : Text → Table → Store → Table × Store
    forget name t s = (
      record t {
        closed = λ m. if is_link m (link_for (casing.to_lower name) t) then true else t.closed m;
      },
      record s { db = forget_peer name s.db },
    )

  -- A signal of typing leaves only where the user has allowed it, and to a name with a session.
  send_typing-allowed :
      (s : Opened) (t : Table) (writes : ℕ → Bool) (peer : Text) (e : Envelope) (l : List Envelope)
      → send_typing s t writes peer ≡ ok (e ∷ l)
      → ((settings s).typing ≡ true) × (e ≡ bare MsgType.typing) × (l ≡ [])
  unfolding send_typing send_to send_over
  send_typing-allowed s t writes peer e l h = elim (Bool-cases ((settings s).typing)) [
    | inr f ↦ absurd (ground arith)
    | inl f ↦ elim (Option-cases (link_for (casing.to_lower peer) t)) [
      | inl n ↦ absurd (ground arith)
      | inr (k, n) ↦ ground arith
    ]
  ]

  -- A new name stands in the record beside the same keys.
  rename-load_identity :
      ⦃a : Aead⦄ (name valid : Text) (s t : Opened) (id : Identity)
      → validate_name name ≡ ok valid
      → load_identity s ≡ ok (some id)
      → rename name s ≡ ok t
      → load_identity t ≡ ok (some (record id { name = valid }))
  unfolding rename rename_identity load_identity load_record
  rename-load_identity name valid s t id v h r = elim (Option-cases s.meta.identity) [
    | inl n ↦ absurd (ground arith)
    | inr (rec, n) ↦ elim (Result-cases (decrypt s.keys rec.priv)) [
      | inl (priv, d) ↦ ground arith
      | inr (x, d) ↦ absurd (ground arith)
    ]
  ]
