-- ===== src/Api/Chats.antt =====
-- The handlers of internal/api/api.go for peers and their messages: messages, send, verify,
-- acceptKey, retry, forget, dial, outbox, deleteOutbox, react, typing, readReceipt, deleteMessage and
-- search. Path values and decoded bodies are arguments; what a flush sends is left out.
pub mod Mail
use chirp.Prelude.{
  ℕ, ◌∷◌, [], Bool, not, Text, List, Option, Result, ok, err, text_eq, if◌then◌else◌,
}
use chirp.Prelude.Int.{pos}
use chirp.Crypto.Aead.{Aead}
use chirp.Identity.Fingerprint.{Sha256}
use chirp.Proto.Envelope.{is_empty}
use chirp.Store.Bolt.{Bolt}
use chirp.Store.Casing.{Casing}
use chirp.Store.Rows.{Store, Db, Peer}
use chirp.Store.Errors.{not_found, Res}
use chirp.Store.Peers.{set_verified, accept_pending_key}
use chirp.Store.Messages.{delete_from_outbox, delete_message, pending_msgs}
use chirp.Store.Meta.{Identity}
use chirp.Store.Reads
use chirp.Store.Reads.{SearchError, messages, search}
use chirp.Node.Outbox.{send_reply}
use chirp.Node.Sessions.{Remote, DialError, fp_mismatch, establish, register}
use chirp.Node.Views.{
  SignalError, send_reaction, send_typing, send_read_receipt, delete_message_for_everyone, forget,
}
use chirp.Api.Answers.{
  Response, Body, Failure, answer, write_err, all_done, aborted, fail, of_store, of_send, of_signal,
}
use chirp.Api.Server.{
  Machine, World, rows_of, opened_of, with_rows, read_json, shown, stored, changed,
}

-- What a dial finds: whether the address answers, what the handshake says, and the new link.
pub record Reached : Type 0 where
  pub connects : Bool
  pub remote : Option Remote
  pub link : ℕ

module _ ⦃bolt : Bolt⦄ where
  abbrev pub in_rows : Res Db → Machine → Response × Machine
  in_rows (ok db) m = (all_done, record m { db = db })
  in_rows (err e) m = (fail (of_store e), m)

  unfoldable pub delete_outbox : Text → Machine → Response × Machine
  delete_outbox id m = in_rows (delete_from_outbox id m.db) m

  unfoldable pub retry_peer : Text → Machine → Response × Machine
  retry_peer name m = (answer 202 Body.done, m)

  abbrev pub told : {A : Type 0} → Result SignalError A → Machine → Response × Machine
  told r m = shown of_signal 200 (λ sent. Body.done) r m

  module _ ⦃casing : Casing⦄ where
    unfoldable pub verify_peer : Text → Option Bool → Machine → Response × Machine
    verify_peer name body m =
        read_json body (λ v. changed of_store (set_verified name v (rows_of m)) m) m

    unfoldable pub forget_name : Text → Machine → Response × Machine
    forget_name name m =
        let (table, s) = forget name m.table (rows_of m) in
        (all_done, record (with_rows s m) { table = table })

    unfoldable pub react_to : World → Text → Option (Text × Text) → Machine → Response × Machine
    react_to w name body m =
        read_json body
          (λ (emoji, target). told (send_reaction m.table w.writes name emoji target) m) m

    unfoldable pub typing_to : World → Text → Machine → Response × Machine
    typing_to w name m = told (send_typing (opened_of m) m.table w.writes name) m

    unfoldable pub read_receipt : World → Text → Option Text → Machine → Response × Machine
    read_receipt w name body m =
        read_json body
          (λ target. told (send_read_receipt (opened_of m) m.table w.writes name target) m) m

    -- The values of everyone and peer in the query.
    unfoldable pub delete_one : World → Text → Text → Text → Machine → Response × Machine
    delete_one w id everyone peer m =
        let gone = in_rows (delete_message id m.db) m in
        if not (text_eq everyone (49 ∷ []))
        then gone
        else if is_empty peer
        then (write_err 400, m)
        else elim (delete_message_for_everyone m.table w.writes peer id) [
          | err e ↦ (fail (of_signal e), m)
          | ok sent ↦ gone
        ]

    module _ ⦃a : Aead⦄ where
      unfoldable pub messages_with : Text → Machine → Response × Machine
      messages_with name m =
          shown of_store 200 Body.messages (messages name (pos 300) (rows_of m)) m

      unfoldable pub outbox_msgs : Machine → Response × Machine
      outbox_msgs m = shown of_store 200 Body.messages (pending_msgs [] (rows_of m)) m

      unfoldable pub send_to_peer :
          World → Text → Option (Text × Text) → Machine → Response × Machine
      send_to_peer w name body m =
          read_json body
            (λ (text, reply_to).
              stored of_send (λ (row, dup). answer 201 (Body.message row))
                (send_reply w.nonce w.id w.now name text reply_to (rows_of m)) m)
            m

      -- A slice out of range is a panic.
      abbrev pub of_search : Result SearchError (List Reads.SearchResult) → Response
      of_search (ok l) = answer 200 (Body.results l)
      of_search (err (SearchError.store e)) = fail (of_store e)
      of_search (err SearchError.slice_out_of_range) = aborted

      unfoldable pub search_for : Text → Machine → Response × Machine
      search_for q m =
          if is_empty (casing.trim_space q)
          then (answer 200 (Body.results []), m)
          else (of_search (search q (pos 50) (rows_of m)), m)

      module _ ⦃sha : Sha256⦄ where
        abbrev pub accepted : Res Store → Machine → Response × Machine
        accepted (err not_found) m = (fail Failure.missing, m)
        accepted (err e) m = (write_err 409, m)
        accepted (ok s) m = (all_done, with_rows s m)

        unfoldable pub accept_key : Text → Machine → Response × Machine
        accept_key name m = accepted (accept_pending_key name (rows_of m)) m

        -- The new session takes its name in the table.
        abbrev pub dialled : ℕ → Result DialError Peer × Store → Machine → Response × Machine
        dialled link (ok p, s) m = (
          all_done,
          record (with_rows s m) { table = register (casing.to_lower p.name) link m.table },
        )
        dialled link (err fp_mismatch, s) m = (write_err 403, with_rows s m)
        dialled link (err e, s) m = (write_err 502, with_rows s m)

        unfoldable pub dial_address :
            World → Reached → Option Text → Identity → Machine → Response × Machine
        dial_address w r body id m =
            read_json body
              (λ want.
                if not r.connects
                then (write_err 502, m)
                else dialled r.link (establish w.nonce w.now id.public want r.remote (rows_of m)) m)
              m
