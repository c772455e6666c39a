-- ===== src/Examples/Sessions.antt =====
-- Two nodes that exchange the message to bo, a table of two sessions, an invitation and a few
-- strings.
use chirp.Prelude.{
  ◌≡◌, ◌≢◌, ◌+◌, ◌≤◌, refl, true, false, [], ◌∷◌, codes, text_eq, none, some, ℕ, length, arith,
}
use chirp.Bytes.Strings.{has_byte}
use chirp.Proto.Envelope.{Envelope, MsgType, is_empty}
use chirp.Store.Bolt.{find}
use chirp.Store.Seals.{encrypt_string}
use chirp.Node.Transfer.{bare, chunks}
use chirp.Node.Transfer.Termination.{chunks-fuel}
use chirp.Node.Link.{
  Turn, Link, new_link, inbound_message, with_store, dispatch, store_of, receive, read_loop,
  max_msg_per_sec, ack_of, count_msg,
}
use chirp.Node.Link.Acks.{acks, count_acks}
use chirp.Node.Link.Stored.{Filed, receive-stored}
use chirp.Node.Link.Rate.{read_loop-rate}
use chirp.Node.Link.Exchange.{Received, add_message-takes, on_msg-acks, exchange}
use chirp.Node.Outbox.{msg_envelope, flush}
use chirp.Node.Sessions.{Table, Steps, Step, no_sessions, register}
use chirp.Node.Sessions.Newest.{one_session}
use chirp.Api.{sanitize_filename}
use chirp.Api.FileNames.{sanitize_filename-Safe}
use chirp.Examples.Buckets.{rows_bolt}
use chirp.Examples.Setup.{ascii_casing, tag_aead, sum_sha}
use chirp.Examples.Data.{
  nonce, nonce-IsNonce, new_store, empty-Indexed, bo, ann, hello, empty_vault,
}
use chirp.Store.Rows.{Message}
use chirp.Examples.Sending.{timing, note, note_store, note-Indexed, note_waits, note_encodes}
use chirp.Examples.Messages.{hello_store}

abbrev turn : Turn
turn = record { me = ann; nonce = nonce; now = 5; writes = true }

-- Ann, who has stored the message to bo, and bo, who has nothing.
abbrev mine : Link
mine = new_link bo [] (record empty_vault { store = hello_store })

abbrev theirs : Link
theirs = new_link ann [] (record empty_vault { store = new_store })

abbrev sending : Link
sending = new_link bo [] (record empty_vault { store = note_store })

abbrev waiting : Message
waiting = record note { seq = 1 }

exchange_example :
    ((flush timing bo note_store).sent ≡ msg_envelope waiting ∷ [])
    × (acks note.id (receive turn (some (msg_envelope waiting)) theirs).0 ≡ true)
    × Received waiting theirs (store_of (receive turn (some (msg_envelope waiting)) theirs).1)
    × (rows_bolt.get
          (store_of
            (receive turn
              (some (ack_of note.id))
              (with_store (flush timing bo note_store).store sending)).1).db.outbox
          note.id
        ≡ none)
unfolding count_msg
exchange_example =
    exchange turn turn timing [] [] waiting (codes "hi") sending theirs note-Indexed note_waits refl
      refl (note_encodes, tt) (unfold text_eq in refl) (unfold find in refl) nonce-IsNonce
      (λ e. refl) (ground arith) (unfold encrypt_string in refl) refl refl

-- The hundredth message of a second.
abbrev busy : Link
busy = record theirs { rate_start = some 0; msg_count = 99 }

read_loop-rate_example :
    count_acks (read_loop ((turn, some (msg_envelope hello)) ∷ []) busy).0 + 99 ≤ max_msg_per_sec
read_loop-rate_example =
    read_loop-rate 0 ((turn, some (msg_envelope hello)) ∷ []) busy refl (ground arith)
      (ground arith)

abbrev erasing : Envelope
erasing = record (bare MsgType.del) { target = codes "m1" }

-- Bo comes back under the same name.
abbrev twice : Table
twice = register bo 1 (register bo 0 no_sessions)

came_back : Steps no_sessions twice
came_back =
    Steps.next (Steps.next (Steps.done no_sessions) (Step.up no_sessions bo 0 refl))
      (Step.up (register bo 0 no_sessions) bo 1 (unfold register in refl))

abbrev newest : ℕ
newest = 1

one_session_example : newest ≡ newest
unfolding text_eq
one_session_example =
    one_session twice newest newest bo came_back (unfold register in refl) (unfold register in refl)
      (unfold register in refl) (unfold register in refl)

sanitize_filename-Safe_example :
    (has_byte 47 (sanitize_filename (codes "../etc/passwd")) ≡ false)
    × (has_byte 92 (sanitize_filename (codes "../etc/passwd")) ≡ false)
    × (is_empty (sanitize_filename (codes "../etc/passwd")) ≡ false)
    × (sanitize_filename (codes "../etc/passwd") ≢ codes ".")
    × (sanitize_filename (codes "../etc/passwd") ≢ codes "..")
sanitize_filename-Safe_example = sanitize_filename-Safe (codes "../etc/passwd")

chunks-fuel_example :
    chunks (2 + length (codes "abc")) (codes "abc") 1
    ≡ chunks (length (codes "abc")) (codes "abc") 1
chunks-fuel_example = chunks-fuel 2 (codes "abc") 1

acked_hello : acks (codes "m1") (receive turn (some (msg_envelope hello)) theirs).0 ≡ true
unfolding count_msg receive dispatch
acked_hello =
    let (r, ok_r) =
      add_message-takes nonce (codes "hi") (inbound_message ann 5 (msg_envelope hello)) new_store
        nonce-IsNonce (λ e. refl) (ground arith) (unfold encrypt_string in refl) in
    on_msg-acks turn (msg_envelope hello) theirs r ok_r refl refl

receive-stored_example : Filed (codes "m1") (receive turn (some (msg_envelope hello)) theirs).1
receive-stored_example =
    receive-stored turn (msg_envelope hello) theirs (codes "m1") empty-Indexed (ground arith)
      acked_hello
