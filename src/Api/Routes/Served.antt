-- ===== src/Api/Routes/Served.antt =====
-- Every route of internal/api/api.go keeps rows, index and outbox together.
use chirp.Prelude.{refl, true, suc, ◌<◌, Text, Option, arith, Result-cases, Bool-cases, inl, inr}
use chirp.Crypto.Aead.{Aead}
use chirp.Identity.Backup.{Kit}
use chirp.Identity.Fingerprint.{Sha256}
use chirp.Store.Bolt.{Bolt}
use chirp.Store.Casing.{Casing}
use chirp.Store.Messages.{delete_all_messages}
use chirp.Store.Messages.Indexed.{Indexed}
use chirp.Store.Messages.Beside.{delete_messages-peers}
use chirp.Store.Messages.History.{deleted-Next}
use chirp.Store.Meta.{Kdf}
use chirp.Api.{Request, secure}
use chirp.Api.Server.{Machine, World, rows_of}
use chirp.Api.Server.Mail.{
  After, Served, same-After, Quiet-Served, Apart-Served, unchanged-Served, need_node-After,
  need_node-Served,
}
use chirp.Api.Account.{
  state, get_settings, put_settings, clear_messages, parse_invite_uri, rename_me, export_key,
  unlock_app, enable_at_rest, set_up_app, restore_app,
}
use chirp.Api.Account.Mail.{
  set_up_app-db, restore_app-db, unlock_app-db, enable_at_rest-db, rename_me-db, put_settings-db,
}
use chirp.Api.Chats.{
  verify_peer, delete_outbox, retry_peer, forget_name, react_to, typing_to, read_receipt,
  delete_one, messages_with, outbox_msgs, send_to_peer, search_for, accept_key, dial_address,
}
use chirp.Api.Chats.Mail.{
  forget_name-After, delete_outbox-Quiet, delete_one-Quiet, send_to_peer-Quiet, accept_key-SameMail,
  verify_peer-Served, dial_address-Served,
}
use chirp.Api.RoomCalls.{
  post_room, messages_in, post_message, delete_room_of, add_member, remove_member, rename_of,
  react_in, accept_room, decline_room,
}
use chirp.Api.RoomCalls.Mail.{
  post_room-Apart, post_message-Apart, add_member-Apart, rename_of-Apart, react_in-Apart,
  delete_room_of-Apart, remove_member-Apart, accept_room-Apart, decline_room-Apart,
}
use chirp.Api.FileCalls.{files_of, file_meta, remove_file, file_bytes_of, file_preview, upload_file}
use chirp.Api.FileCalls.Mail.{remove_file-Apart, upload_file-Apart}
use chirp.Api.Answers.{write_err}
use chirp.Api.Routes.{not_matched, Call, serve, respond, allows, verb_of}

module _ ⦃bolt : Bolt⦄ ⦃casing : Casing⦄ ⦃a : Aead⦄ ⦃sha : Sha256⦄ ⦃kdf : Kdf⦄ ⦃kit : Kit⦄ where
  -- The calls that may change or drop a pin: that which accepts a new key, and that which forgets.
  abbrev pub Spares : Call → Type 0
  Spares (Call.post_accept_key name) = ⊥
  Spares (Call.delete_peer name) = ⊥
  Spares _ = Unit {0}

  serve-Served :
      (w : World) (c : Call)
      → Spares c
      → (m : Machine) → Indexed m.db
      → suc m.db.msgs_seq < 18446744073709551616
      → Served m (serve w c m)
  unfolding serve state get_settings clear_messages parse_invite_uri export_key retry_peer react_to
      typing_to read_receipt messages_with outbox_msgs search_for messages_in files_of file_meta
      file_bytes_of file_preview delete_all_messages
  serve-Served w (Call.post_setup body) p m i b =
      unchanged-Served m (set_up_app w body m) (set_up_app-db w body m) i
  serve-Served w (Call.post_restore body) p m i b =
      unchanged-Served m (restore_app w body m) (restore_app-db w body m) i
  serve-Served w (Call.post_unlock body) p m i b =
      unchanged-Served m (unlock_app w body m) (unlock_app-db w body m) i
  serve-Served w (Call.post_passphrase body) p m i b =
      need_node-Served (λ id. enable_at_rest w body) m i
        (λ id. unchanged-Served m (enable_at_rest w body m) (enable_at_rest-db w body m) i)
  serve-Served w (Call.post_rename body) p m i b =
      need_node-Served (rename_me body) m i
        (λ id. unchanged-Served m (rename_me body id m) (rename_me-db body id m) i)
  serve-Served w (Call.put_settings_of body) p m i b =
      need_node-Served (λ id. put_settings body) m i
        (λ id. unchanged-Served m (put_settings body m) (put_settings-db body m) i)
  serve-Served w (Call.post_message_to name body) p m i b =
      need_node-Served (λ id. send_to_peer w name body) m i
        (λ id. Quiet-Served m (send_to_peer w name body m) (send_to_peer-Quiet w name body m i b))
  serve-Served w (Call.post_verify name body) p m i b =
      need_node-Served (λ id. verify_peer name body) m i (λ id. verify_peer-Served name body m i)
  serve-Served w (Call.delete_message_of id everyone peer) p m i b =
      need_node-Served (λ me. delete_one w id everyone peer) m i
        (λ me.
          Quiet-Served m (delete_one w id everyone peer m)
            (delete_one-Quiet w id everyone peer m i))
  serve-Served w (Call.post_dial r body) p m i b =
      need_node-Served (dial_address w r body) m i (λ id. dial_address-Served w r body id m i)
  serve-Served w (Call.delete_waiting id) p m i b =
      need_node-Served (λ me. delete_outbox id) m i
        (λ me. Quiet-Served m (delete_outbox id m) (delete_outbox-Quiet id m i))
  serve-Served w Call.post_clear p m i b =
      need_node-Served (λ id. clear_messages) m i
        (λ id.
          Quiet-Served m (clear_messages m)
            (deleted-Next (λ n. true) (rows_of m) i, delete_messages-peers (λ n. true) m.db))
  serve-Served w (Call.post_file name upload) p m i b =
      need_node-Served (λ id. upload_file w name upload) m i
        (λ id. Apart-Served m (upload_file w name upload m) (upload_file-Apart w name upload m) i)
  serve-Served w (Call.delete_file_of id) p m i b =
      need_node-Served (λ me. remove_file id) m i
        (λ me. Apart-Served m (remove_file id m) (remove_file-Apart id m) i)
  serve-Served w (Call.post_new_room body) p m i b =
      need_node-Served (post_room w body) m i
        (λ me. Apart-Served m (post_room w body me m) (post_room-Apart w body me m) i)
  serve-Served w (Call.post_room_message id body) p m i b =
      need_node-Served (post_message w id body) m i
        (λ me. Apart-Served m (post_message w id body me m) (post_message-Apart w id body me m) i)
  serve-Served w (Call.post_member id body) p m i b =
      need_node-Served (add_member w id body) m i
        (λ me. Apart-Served m (add_member w id body me m) (add_member-Apart w id body me m) i)
  serve-Served w (Call.post_room_name id body) p m i b =
      need_node-Served (rename_of w id body) m i
        (λ me. Apart-Served m (rename_of w id body me m) (rename_of-Apart w id body me m) i)
  serve-Served w (Call.post_room_react id msg body) p m i b =
      need_node-Served (react_in w id msg body) m i
        (λ me. Apart-Served m (react_in w id msg body me m) (react_in-Apart w id msg body me m) i)
  serve-Served w (Call.delete_own_room id) p m i b =
      need_node-Served (delete_room_of w id) m i
        (λ me. Apart-Served m (delete_room_of w id me m) (delete_room_of-Apart w id me m) i)
  serve-Served w (Call.delete_member id name) p m i b =
      need_node-Served (remove_member w id name) m i
        (λ me. Apart-Served m (remove_member w id name me m) (remove_member-Apart w id name me m) i)
  serve-Served w (Call.post_accept id) p m i b =
      need_node-Served (accept_room w id) m i
        (λ me. Apart-Served m (accept_room w id me m) (accept_room-Apart w id me m) i)
  serve-Served w (Call.post_decline id) p m i b =
      need_node-Served (decline_room w id) m i
        (λ me. Apart-Served m (decline_room w id me m) (decline_room-Apart w id me m) i)
  serve-Served w c p m i b = Quiet-Served m (serve w c m) (ground (arith, i))

  serve-After :
      (w : World) (c : Call) (m : Machine)
      → Indexed m.db
      → suc m.db.msgs_seq < 18446744073709551616
      → After m (serve w c m)
  unfolding serve
  serve-After w (Call.post_accept_key name) m i b =
      need_node-After (λ id. accept_key name) m i
        (λ id. same-After m (accept_key name m) (accept_key-SameMail name m) i)
  serve-After w (Call.delete_peer name) m i b =
      need_node-After (λ id. forget_name name) m i (λ id. forget_name-After name m i)
  serve-After w c m i b = (serve-Served w c tt m i b).0

  pub respond-Served :
      (url_host : Text → Option Text) (r : Request) (w : World) (c : Call)
      → Spares c
      → (m : Machine) → Indexed m.db
      → suc m.db.msgs_seq < 18446744073709551616
      → Served m (respond url_host r w c m)
  unfolding respond
  respond-Served url_host r w c p m i b = elim (Result-cases (secure url_host r)) [
    | inr (x, e) ↦ rw (e, respond) (unchanged-Served m (write_err 403, m) refl i)
    | inl (limit, e) ↦ elim (Bool-cases (allows (verb_of c) r.method)) [
      | inl y ↦ rw (e, respond, y) (serve-Served w c p m i b)
      | inr y ↦ rw (e, respond, y) (unchanged-Served m (not_matched r.method, m) refl i)
    ]
  ]

  pub respond-After :
      (url_host : Text → Option Text) (r : Request) (w : World) (c : Call) (m : Machine)
      → Indexed m.db
      → suc m.db.msgs_seq < 18446744073709551616
      → After m (respond url_host r w c m)
  unfolding respond
  respond-After url_host r w c m i b = elim (Result-cases (secure url_host r)) [
    | inr (x, e) ↦ ground (arith, i)
    | inl (limit, e) ↦ elim (Bool-cases (allows (verb_of c) r.method)) [
      | inl y ↦ ground (arith, serve-After w c m i b)
      | inr y ↦ ground (arith, i)
    ]
  ]
