-- ===== src/Api/Routes/Keyed.antt =====
-- The key of the store under any sequence of requests to the API of internal/api/api.go.
use chirp.Prelude.{
  ◌≡◌, refl, Bool, Text, Option, none, some, Result, ok, err, List, [], ◌∷◌, arith, Option-cases,
  Result-cases, Bool-cases, inl, inr,
}
use chirp.Crypto.Aead.{Aead}
use chirp.Identity.Backup.{Kit, BackupFile, bad_passphrase}
use chirp.Identity.Fingerprint.{Sha256}
use chirp.Store.Bolt.{Bolt}
use chirp.Store.Casing.{Casing}
use chirp.Store.Meta
use chirp.Store.Meta.{Kdf, Identity}
use chirp.App.{App, AppError, open_app, unlock, setup, restore, enable}
use chirp.Node.Views.{rename}
use chirp.App.Lifecycle.{
  IsKeyed, open_app-IsKeyed, unlock-IsKeyed, setup-IsKeyed, restore-IsKeyed, enable-IsKeyed,
}
use chirp.Api.{Request, secure}
use chirp.Api.Server.{Machine, World, need_node, opened_of}
use chirp.Api.Account.{
  state, get_settings, put_settings, clear_messages, parse_invite_uri, rename_me, export_key,
  unlock_app, enable_at_rest, set_up_app, restore_app, set_up, restored,
}
use chirp.Api.Chats.{
  verify_peer, delete_outbox, retry_peer, forget_name, react_to, typing_to, read_receipt,
  delete_one, messages_with, outbox_msgs, send_to_peer, search_for, accept_key, dial_address,
}
use chirp.Api.RoomCalls.{
  post_room, messages_in, post_message, delete_room_of, add_member, remove_member, rename_of,
  react_in, accept_room, decline_room,
}
use chirp.Api.FileCalls.{files_of, file_meta, remove_file, file_bytes_of, file_preview, upload_file}
use chirp.Api.Routes.{Call, serve, respond, allows, verb_of}

module _ ⦃bolt : Bolt⦄ ⦃casing : Casing⦄ ⦃a : Aead⦄ ⦃sha : Sha256⦄ ⦃kdf : Kdf⦄ ⦃kit : Kit⦄ where
  set_up-app : (r : Result AppError App × App) (m : Machine) → (set_up r m).1.app ≡ r.1
  unfolding state
  set_up-app (ok b, app) m = refl
  set_up-app (err AppError.nil_store, app) m = refl
  set_up-app (err _, app) m = refl

  restored-app : (r : Result AppError App × App) (m : Machine) → (restored r m).1.app ≡ r.1
  unfolding state
  restored-app (ok b, app) m = refl
  restored-app (err (AppError.backup bad_passphrase), app) m = refl
  restored-app (err AppError.nil_store, app) m = refl
  restored-app (err _, app) m = ground arith

  set_up_app-IsKeyed :
      (w : World) (body : Option Text) (m : Machine)
      → IsKeyed m.app
      → IsKeyed (set_up_app w body m).1.app
  unfolding set_up_app
  set_up_app-IsKeyed w none m k = k
  set_up_app-IsKeyed w (some name) m k =
      rw (set_up-app (setup w.nonce w.starts w.priv w.public name m.app) m)
        (setup-IsKeyed w.nonce w.starts w.priv w.public name m.app k)

  restore_app-IsKeyed :
      (w : World) (body : Option (Option BackupFile × Text)) (m : Machine)
      → IsKeyed m.app
      → IsKeyed (restore_app w body m).1.app
  unfolding restore_app
  restore_app-IsKeyed w none m k = k
  restore_app-IsKeyed w (some (f, passphrase)) m k =
      rw (restored-app (restore w.nonce w.starts f passphrase m.app) m)
        (restore-IsKeyed w.nonce w.starts f passphrase m.app k)

  unlock_app-IsKeyed :
      (w : World) (body : Option Text) (m : Machine)
      → IsKeyed m.app
      → IsKeyed (unlock_app w body m).1.app
  unfolding unlock_app state
  unlock_app-IsKeyed w none m k = k
  unlock_app-IsKeyed w (some passphrase) m k =
      elim (Result-cases (unlock w.starts passphrase m.app)) [
        | inr (x, e) ↦ rw e k
        | inl (next, e) ↦ rw e (unlock-IsKeyed w.starts passphrase m.app next e)
      ]

  enable_at_rest-IsKeyed :
      (w : World) (body : Option Text) (m : Machine)
      → IsKeyed m.app
      → IsKeyed (enable_at_rest w body m).1.app
  unfolding enable_at_rest
  enable_at_rest-IsKeyed w none m k = k
  enable_at_rest-IsKeyed w (some passphrase) m k =
      elim (Result-cases (enable w.nonce w.salt passphrase m.app)) [
        | inr (x, e) ↦ ground arith
        | inl (next, e) ↦ ground (arith, enable-IsKeyed w.nonce w.salt passphrase m.app next e k)
      ]

  rename_me-IsKeyed :
      (body : Option Text) (id : Identity) (m : Machine)
      → m.app.node ≡ some id
      → IsKeyed m.app
      → IsKeyed (rename_me body id m).1.app
  unfolding rename_me
  rename_me-IsKeyed none id m n k = k
  rename_me-IsKeyed (some name) id m n k = elim (Result-cases (rename name (opened_of m))) [
    | inr (x, e) ↦ ground arith
    | inl (s, e) ↦ elim (Option-cases s.meta.identity) [
      | inl i ↦ ground arith
      | inr (rec, i) ↦ ground arith
    ]
  ]

  serve-IsKeyed : (w : World) (c : Call) (m : Machine) → IsKeyed m.app → IsKeyed (serve w c m).1.app
  unfolding serve state get_settings put_settings clear_messages parse_invite_uri export_key
      verify_peer delete_outbox retry_peer forget_name react_to typing_to read_receipt delete_one
      messages_with outbox_msgs send_to_peer search_for accept_key dial_address post_room
      messages_in post_message delete_room_of add_member remove_member rename_of react_in
      accept_room decline_room files_of file_meta remove_file file_bytes_of file_preview upload_file
  serve-IsKeyed w Call.get_state m k = k
  serve-IsKeyed w (Call.post_setup body) m k = set_up_app-IsKeyed w body m k
  serve-IsKeyed w (Call.post_restore body) m k = restore_app-IsKeyed w body m k
  serve-IsKeyed w (Call.post_unlock body) m k = unlock_app-IsKeyed w body m k
  serve-IsKeyed w (Call.post_passphrase body) m k = ground (arith, enable_at_rest-IsKeyed w body m)
  serve-IsKeyed w (Call.post_rename body) m k = elim (Option-cases m.app.node) [
    | inl n ↦ ground arith
    | inr (id, n) ↦ rw (n, need_node) (rename_me-IsKeyed body id m n k)
  ]
  serve-IsKeyed w (Call.put_settings_of body) m k = ground arith
  serve-IsKeyed w _ m k = ground arith

  respond-IsKeyed :
      (url_host : Text → Option Text) (r : Request) (w : World) (c : Call) (m : Machine)
      → IsKeyed m.app
      → IsKeyed (respond url_host r w c m).1.app
  unfolding respond
  respond-IsKeyed url_host r w c m k = elim (Result-cases (secure url_host r)) [
    | inr (x, e) ↦ rw (e, respond) k
    | inl (limit, e) ↦ elim (Bool-cases (allows (verb_of c) r.method)) [
      | inl y ↦ rw (e, y, respond) (serve-IsKeyed w c m k)
      | inr y ↦ rw (e, y, respond) k
    ]
  ]

  -- One request after another, each with what it draws of the world.
  unfoldable pub respond_each :
      (Text → Option Text) → List (Request × World × Call) → Machine → Machine
  respond_each url_host [] m = m
  respond_each url_host ((r, w, c) ∷ l) m = respond_each url_host l (respond url_host r w c m).1

  respond_each-kept :
      (url_host : Text → Option Text) (l : List (Request × World × Call)) (m : Machine)
      → IsKeyed m.app
      → IsKeyed (respond_each url_host l m).app
  unfolding respond_each
  respond_each-kept url_host [] m k = k
  respond_each-kept url_host ((r, w, c) ∷ l) m k =
      respond_each-kept url_host l (respond url_host r w c m).1 (respond-IsKeyed url_host r w c m k)

  -- Whatever requests the API answers after Open, one after another, a node runs only with an open
  -- store that has a key of 32 bytes.
  pub respond_each-IsKeyed :
      (url_host : Text → Option Text) (starts : Bool) (passphrase : Text) (file : Meta.Meta)
      (l : List (Request × World × Call)) (m : Machine)
      → open_app starts passphrase file ≡ ok m.app
      → IsKeyed (respond_each url_host l m).app
  respond_each-IsKeyed url_host starts passphrase file l m h =
      respond_each-kept url_host l m (open_app-IsKeyed starts passphrase file m.app h)
