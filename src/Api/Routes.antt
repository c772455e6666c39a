-- ===== src/Api/Routes.antt =====
-- The routes of New in internal/api/api.go, each a call with its decoded path, query and body, behind
-- secure. The streams of events, the invite's picture, the diagnostics and the static files are left
-- out.
pub mod Requests
pub mod Keyed
pub mod Served
use chirp.Prelude.{
  ℕ, Bool, true, false, ◌&&◌, ◌||◌, not, Text, codes, List, Option, none, some, Result, ok, err,
  text_eq, if◌then◌else◌,
}
use chirp.Crypto.Aead.{Aead}
use chirp.Identity.Backup.{Kit, BackupFile}
use chirp.Identity.Fingerprint.{Sha256}
use chirp.Store.Bolt.{Bolt}
use chirp.Store.Casing.{Casing}
use chirp.Store.Meta.{Kdf, Identity, Settings}
use chirp.Node.Roster.{me_of, peers}
use chirp.Node.RoomViews.{rooms, room_shown}
use chirp.Api.{Request, Forbidden, is_safe, secure}
use chirp.Api.Answers.{Response, Body, answer, write_err, of_store}
use chirp.Api.Server.{Machine, World, rows_of, is_live, need_node, shown}
use chirp.Api.Account.{
  state, get_settings, put_settings, clear_messages, parse_invite_uri, rename_me, export_key,
  unlock_app, enable_at_rest, set_up_app, restore_app,
}
use chirp.Api.Chats.{
  Reached, verify_peer, delete_outbox, retry_peer, forget_name, react_to, typing_to, read_receipt,
  delete_one, messages_with, outbox_msgs, send_to_peer, search_for, accept_key, dial_address,
}
use chirp.Api.RoomCalls.{
  post_room, messages_in, post_message, delete_room_of, add_member, remove_member, rename_of,
  react_in, accept_room, decline_room,
}
use chirp.Api.FileCalls.{files_of, file_meta, remove_file, file_bytes_of, file_preview, upload_file}

pub data Call : Type 0 where
  get_state get_me get_peers get_outbox get_settings_of get_files get_rooms : Call
  get_messages get_room get_room_messages get_file get_file_data get_preview get_search :
      Text → Call
  post_setup post_unlock post_passphrase post_rename post_backup post_invite : Option Text → Call
  post_restore : Option (Option BackupFile × Text) → Call
  put_settings_of : Option Settings → Call
  post_clear : Call
  post_message_to post_react : Text → Option (Text × Text) → Call
  post_verify : Text → Option Bool → Call
  post_accept_key post_retry post_typing delete_peer delete_waiting : Text → Call
  post_read : Text → Option Text → Call
  delete_message_of : Text → Text → Text → Call
  post_dial : Reached → Option Text → Call
  post_file : Text → Option (Text × Text) → Call
  delete_file_of : Text → Call
  post_new_room : Option (Text × List Text) → Call
  post_room_message post_member post_room_name : Text → Option Text → Call
  post_room_react : Text → Text → Option Text → Call
  delete_member : Text → Text → Call
  delete_own_room post_accept post_decline : Text → Call

pub data Verb : Type 0 where
  get post put delete : Verb

abbrev pub verb_of : Call → Verb
verb_of Call.get_state = get
verb_of Call.get_me = get
verb_of Call.get_peers = get
verb_of Call.get_outbox = get
verb_of Call.get_settings_of = get
verb_of Call.get_files = get
verb_of Call.get_rooms = get
verb_of (Call.get_messages _) = get
verb_of (Call.get_room _) = get
verb_of (Call.get_room_messages _) = get
verb_of (Call.get_file _) = get
verb_of (Call.get_file_data _) = get
verb_of (Call.get_preview _) = get
verb_of (Call.get_search _) = get
verb_of (Call.put_settings_of _) = put
verb_of (Call.delete_peer _) = delete
verb_of (Call.delete_waiting _) = delete
verb_of (Call.delete_message_of _ _ _) = delete
verb_of (Call.delete_file_of _) = delete
verb_of (Call.delete_member _ _) = delete
verb_of (Call.delete_own_room _) = delete
verb_of _ = post

-- A pattern for GET takes HEAD too.
abbrev pub allows : Verb → Text → Bool
allows get method = is_safe method
allows post method = text_eq method (codes "POST")
allows put method = text_eq method (codes "PUT")
allows delete method = text_eq method (codes "DELETE")

-- A GET that no such pattern takes goes to the static files, where there is none of this path;
-- another method is refused. The texts are those of net/http.
abbrev pub not_matched : Text → Response
not_matched method = write_err (if is_safe method then 404 else 405)

module _ ⦃bolt : Bolt⦄ ⦃casing : Casing⦄ ⦃a : Aead⦄ ⦃sha : Sha256⦄ ⦃kdf : Kdf⦄ ⦃kit : Kit⦄ where
  -- One pattern of the mux, its handler behind needNode where New puts it.
  unfoldable pub serve : World → Call → Machine → Response × Machine
  serve w Call.get_state m = state m
  serve w (Call.post_setup body) m = set_up_app w body m
  serve w (Call.post_restore body) m = restore_app w body m
  serve w (Call.post_unlock body) m = unlock_app w body m
  serve w (Call.post_passphrase body) m = need_node (λ id. enable_at_rest w body) m
  serve w Call.get_me m = need_node (λ id n. (answer 200 (Body.me (me_of id)), n)) m
  serve w (Call.post_rename body) m = need_node (rename_me body) m
  serve w Call.get_peers m =
      need_node (λ id n. shown of_store 200 Body.peers (peers (is_live n) w.nearby (rows_of n)) n) m
  serve w (Call.get_messages name) m = need_node (λ id. messages_with name) m
  serve w (Call.post_message_to name body) m = need_node (λ id. send_to_peer w name body) m
  serve w (Call.post_verify name body) m = need_node (λ id. verify_peer name body) m
  serve w (Call.post_accept_key name) m = need_node (λ id. accept_key name) m
  serve w (Call.post_retry name) m = need_node (λ id. retry_peer name) m
  serve w (Call.post_react name body) m = need_node (λ id. react_to w name body) m
  serve w (Call.post_typing name) m = need_node (λ id. typing_to w name) m
  serve w (Call.post_read name body) m = need_node (λ id. read_receipt w name body) m
  serve w (Call.delete_message_of id everyone peer) m =
      need_node (λ me. delete_one w id everyone peer) m
  serve w (Call.get_search q) m = need_node (λ id. search_for q) m
  serve w (Call.delete_peer name) m = need_node (λ id. forget_name name) m
  serve w (Call.post_dial r body) m = need_node (dial_address w r body) m
  serve w (Call.post_invite body) m = need_node (λ id. parse_invite_uri body) m
  serve w Call.get_outbox m = need_node (λ id. outbox_msgs) m
  serve w (Call.delete_waiting id) m = need_node (λ me. delete_outbox id) m
  serve w Call.get_settings_of m = need_node (λ id. get_settings) m
  serve w (Call.put_settings_of body) m = need_node (λ id. put_settings body) m
  serve w Call.post_clear m = need_node (λ id. clear_messages) m
  serve w (Call.post_backup body) m = need_node (λ id. export_key w body) m
  serve w (Call.post_file name upload) m = need_node (λ id. upload_file w name upload) m
  serve w Call.get_files m = need_node (λ id. files_of) m
  serve w (Call.get_file id) m = need_node (λ me. file_meta id) m
  serve w (Call.get_file_data id) m = need_node (λ me. file_bytes_of id) m
  serve w (Call.get_preview id) m = need_node (λ me. file_preview w id) m
  serve w (Call.delete_file_of id) m = need_node (λ me. remove_file id) m
  serve w Call.get_rooms m =
      need_node (λ me n. shown of_store 200 Body.rooms (rooms (is_live n) me.name (rows_of n)) n) m
  serve w (Call.post_new_room body) m = need_node (post_room w body) m
  serve w (Call.get_room id) m =
      need_node
        (λ me n. shown of_store 200 Body.room (room_shown (is_live n) me.name id (rows_of n)) n) m
  serve w (Call.get_room_messages id) m = need_node (λ me. messages_in id) m
  serve w (Call.post_room_message id body) m = need_node (post_message w id body) m
  serve w (Call.delete_own_room id) m = need_node (delete_room_of w id) m
  serve w (Call.post_member id body) m = need_node (add_member w id body) m
  serve w (Call.delete_member id name) m = need_node (remove_member w id name) m
  serve w (Call.post_room_name id body) m = need_node (rename_of w id body) m
  serve w (Call.post_room_react id msg body) m = need_node (react_in w id msg body) m
  serve w (Call.post_accept id) m = need_node (accept_room w id) m
  serve w (Call.post_decline id) m = need_node (decline_room w id) m

  -- Handler: the mux behind secure.
  unfoldable pub respond :
      (Text → Option Text) → Request → World → Call → Machine → Response × Machine
  respond url_host r w c m = elim (secure url_host r) [
    | err e ↦ (write_err 403, m)
    | ok limit ↦ if allows (verb_of c) r.method then serve w c m else (not_matched r.method, m)
  ]
