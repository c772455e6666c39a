-- ===== src/Node/Outbox/Poison.antt =====
-- A queued message that cannot be encoded: flush of internal/node/node.go.
use chirp.Prelude.{◌≡◌, false, List, [], ◌∷◌, Text, ok, err, arith}
use chirp.Crypto.Aead.{Aead}
use chirp.Proto.Envelope.{IdError, check_id, validate, check_type, check_body, is_empty}
use chirp.Store.Bolt.{Bolt}
use chirp.Store.Casing.{Casing}
use chirp.Store.Rows.{Message, Store}
use chirp.Store.Messages.{pending_msgs, record_attempt}
use chirp.Node.Outbox.{Timing, is_valid, msg_envelope, waits, flush_msgs, flush}

bad_reply_to-invalid :
    (m : Message) (x : IdError)
    → is_empty m.reply_to ≡ false
    → check_id m.reply_to ≡ err x
    → is_valid (msg_envelope m) ≡ false
unfolding validate check_type check_body
bad_reply_to-invalid m x e h = ground arith

module _ ⦃bolt : Bolt⦄ ⦃casing : Casing⦄ ⦃a : Aead⦄ where
  -- Where the first message that waits for a peer answers an id that is none, and its turn has come
  -- and can be recorded, a flush sends nothing at all and the session is closed.
  pub flush-poisoned :
      (t : Timing) (peer : Text) (s : Store) (m n : Message) (l : List Message) (x : IdError)
      → pending_msgs peer s ≡ ok (m ∷ l)
      → is_empty m.reply_to ≡ false
      → check_id m.reply_to ≡ err x
      → waits t m ≡ false
      → (record_attempt m.id t.now s).0 ≡ ok n
      → ((flush t peer s).sent ≡ []) × ((flush t peer s).up ≡ false)
  unfolding flush flush_msgs
  flush-poisoned t peer s m n l x p e h w r =
      rw (flush, p) (ground (arith, bad_reply_to-invalid m x e h))
