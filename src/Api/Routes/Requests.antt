-- ===== src/Api/Routes/Requests.antt =====
-- What a request to the API of internal/api/api.go can do to the machine.
use chirp.Prelude.{
  ◌≡◌, ◌≢◌, ◌⊎◌, refl, text_eq_iff, text_eq, Result-cases, Bool-cases, Option-cases, true, false,
  [], Text, codes, Option, some, none, arith, inl, inr,
}
use chirp.Crypto.Aead.{Aead}
use chirp.Identity.Backup.{Kit}
use chirp.Identity.Fingerprint.{Sha256}
use chirp.Store.Bolt.{Bolt}
use chirp.Store.Casing.{Casing}
use chirp.Store.Meta.{Kdf, Identity}
use chirp.Api.{Request, is_safe, host_name, is_local, secure}
use chirp.Api.Guards.{served, secure_iff}
use chirp.Api.Answers.{Response, write_err}
use chirp.Api.Server.{Machine, World, need_node}
use chirp.Api.Account.{state, get_settings}
use chirp.Api.Chats.{messages_with, outbox_msgs, search_for}
use chirp.Api.RoomCalls.{messages_in}
use chirp.Api.FileCalls.{files_of, file_meta, file_bytes_of, file_preview}
use chirp.Api.Routes.{Call, Verb, get, post, put, delete, verb_of, allows, serve, respond}

-- A pattern of another verb never takes GET or HEAD.
allows-get : (v : Verb) (method : Text) → is_safe method ≡ true → allows v method ≡ true → v ≡ get
unfolding text_eq
allows-get get method s h = refl
allows-get post method s h =
    let e = (text_eq_iff method (codes "POST")).0 h in absurd (ground (arith, rw e at s))
allows-get put method s h =
    let e = (text_eq_iff method (codes "PUT")).0 h in absurd (ground (arith, rw e at s))
allows-get delete method s h =
    let e = (text_eq_iff method (codes "DELETE")).0 h in absurd (ground (arith, rw e at s))

module _ ⦃bolt : Bolt⦄ ⦃casing : Casing⦄ ⦃a : Aead⦄ ⦃sha : Sha256⦄ ⦃kdf : Kdf⦄ ⦃kit : Kit⦄ where
  need_node-keeps :
      (f : Identity → Machine → Response × Machine) (m : Machine)
      → ((id : Identity) (n : Machine) → (f id n).1 ≡ n)
      → (need_node f m).1 ≡ m
  need_node-keeps f m keeps = elim (Option-cases m.app.node) [
    | inl e ↦ ground arith
    | inr (id, e) ↦ ground (arith, keeps id m)
  ]

  search_for-keeps : (q : Text) (m : Machine) → (search_for q m).1 ≡ m
  unfolding search_for
  search_for-keeps q m = ground arith

  -- The calls that New does not put behind needNode.
  abbrev pub IsFirstRun : Call → Type 0
  IsFirstRun Call.get_state = Unit {0}
  IsFirstRun (Call.post_setup body) = Unit {0}
  IsFirstRun (Call.post_restore body) = Unit {0}
  IsFirstRun (Call.post_unlock body) = Unit {0}
  IsFirstRun _ = ⊥

  -- A handler of a GET changes nothing.
  serve-get : (w : World) (c : Call) (m : Machine) → verb_of c ≡ get → (serve w c m).1 ≡ m
  unfolding serve state get_settings messages_with outbox_msgs search_for messages_in files_of
      file_meta file_bytes_of file_preview
  serve-get w Call.get_state m v = refl
  serve-get w Call.get_me m v = ground arith
  serve-get w Call.get_peers m v = ground arith
  serve-get w Call.get_outbox m v = ground arith
  serve-get w Call.get_settings_of m v = ground arith
  serve-get w Call.get_files m v = ground arith
  serve-get w Call.get_rooms m v = ground arith
  serve-get w (Call.get_messages name) m v = ground arith
  serve-get w (Call.get_room id) m v = ground arith
  serve-get w (Call.get_room_messages id) m v = ground arith
  serve-get w (Call.get_file id) m v = ground arith
  serve-get w (Call.get_file_data id) m v = ground arith
  serve-get w (Call.get_preview id) m v = ground arith
  serve-get w (Call.get_search q) m v = ground arith
  serve-get w _ m v = absurd (ground arith)

  respond-refused :
      (url_host : Text → Option Text) (r : Request) (w : World) (c : Call) (m : Machine)
      → served (secure url_host r) ≡ false
      → (respond url_host r w c m).1 ≡ m
  unfolding respond
  respond-refused url_host r w c m h = elim (Result-cases (secure url_host r)) [
    | inl (limit, e) ↦ absurd (ground arith)
    | inr (x, e) ↦ rw (e, respond) refl
  ]

  respond-safe :
      (url_host : Text → Option Text) (r : Request) (w : World) (c : Call) (m : Machine)
      → is_safe r.method ≡ true
      → (respond url_host r w c m).1 ≡ m
  unfolding respond
  respond-safe url_host r w c m h = elim (Result-cases (secure url_host r)) [
    | inr (x, e) ↦ rw (e, respond) refl
    | inl (limit, e) ↦ elim (Bool-cases (allows (verb_of c) r.method)) [
      | inl y ↦ rw (e, y, respond) (serve-get w c m (allows-get (verb_of c) r.method h y))
      | inr y ↦ rw (e, y, respond) refl
    ]
  ]

  -- A request that changes anything, the app, the store, the files or the sessions, has a local
  -- host, carries the header X-Chirp: 1, and has no origin or one whose host is the request's. So
  -- no GET changes anything, whichever of the modelled handlers it reaches.
  pub respond-changes :
      (url_host : Text → Option Text) (r : Request) (w : World) (c : Call) (m : Machine)
      → (respond url_host r w c m).1 ≢ m
      → (is_local (host_name r.host) ≡ true)
        × (r.x_chirp ≡ codes "1")
        × ((r.origin ≡ []) ⊎ (url_host r.origin ≡ some r.host))
  respond-changes url_host r w c m changes = elim (Bool-cases (served (secure url_host r))) [
    | inr e ↦ absurd (changes (respond-refused url_host r w c m e))
    | inl e ↦
        let (host, own) = (secure_iff url_host r).0 e in
        elim own [
          | inl safe ↦ absurd (changes (respond-safe url_host r w c m safe))
          | inr (x, o) ↦ (host, x, o)
        ]
  ]

  -- While no node runs, every call is answered with 409 and changes nothing, save the state, the
  -- setup, the restore and the unlocking.
  pub serve-waiting :
      (w : World) (c : Call) (m : Machine)
      → m.app.node ≡ none
      → (serve w c m ≡ (write_err 409, m)) ⊎ IsFirstRun c
  unfolding serve
  serve-waiting w c m n = ground arith
