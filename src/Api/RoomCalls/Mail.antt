-- ===== src/Api/RoomCalls/Mail.antt =====
-- What the handlers of rooms in internal/api/api.go do leaves the messages to peers as they are.
use chirp.Prelude.{refl, Text, List, Option, none, some}
use chirp.Crypto.Aead.{Aead}
use chirp.Store.Bolt.{Bolt}
use chirp.Store.Casing.{Casing}
use chirp.Store.Messages.Mail.{Apart}
use chirp.Store.Meta.{Identity}
use chirp.Node.OwnRooms.Mail.{
  leave_room-Apart, remove_room_member-Apart, accept_room_invite-Apart, decline_room_invite-Apart,
  rename_room-Apart, add_room_member-Apart,
}
use chirp.Node.RoomPosts.Mail.{
  send_room_message-Apart, send_room_reaction-Apart, create_own_room-Apart,
}
use chirp.Api.Answers.{Body, answer, all_done, of_post, of_node}
use chirp.Api.Server.{Machine, World, rows_of}
use chirp.Api.RoomCalls.{
  delete_room_of, remove_member, accept_room, decline_room, post_room, post_message, add_member,
  rename_of, react_in,
}
use chirp.Api.Server.Mail.{announced-Apart, stored-Apart}

module _ ⦃bolt : Bolt⦄ ⦃casing : Casing⦄ ⦃a : Aead⦄ where
  pub post_room-Apart :
      (w : World) (body : Option (Text × List Text)) (me : Identity) (m : Machine)
      → Apart (post_room w body me m).1.db m.db
  unfolding post_room
  post_room-Apart w none me m = ((refl, refl, refl, refl), refl)
  post_room-Apart w (some (name, members)) me m =
      announced-Apart of_post 201 (Body.row w.id) _ m
        (create_own_room-Apart w.reaches w.nonce w.id w.now_ms me.name name members (rows_of m))

  pub post_message-Apart :
      (w : World) (id : Text) (body : Option Text) (me : Identity) (m : Machine)
      → Apart (post_message w id body me m).1.db m.db
  unfolding post_message
  post_message-Apart w id none me m = ((refl, refl, refl, refl), refl)
  post_message-Apart w id (some text) me m =
      stored-Apart of_post (λ sent. answer 201 (Body.row w.id)) _ m
        (send_room_message-Apart w.timing w.reaches w.takes w.nonce w.id w.now_ms me.name id text
          (rows_of m))

  pub add_member-Apart :
      (w : World) (id : Text) (body : Option Text) (me : Identity) (m : Machine)
      → Apart (add_member w id body me m).1.db m.db
  unfolding add_member
  add_member-Apart w id none me m = ((refl, refl, refl, refl), refl)
  add_member-Apart w id (some name) me m =
      announced-Apart of_node 200 Body.done _ m
        (add_room_member-Apart w.reaches w.nonce w.now_ms me.name id name (rows_of m))

  pub rename_of-Apart :
      (w : World) (id : Text) (body : Option Text) (me : Identity) (m : Machine)
      → Apart (rename_of w id body me m).1.db m.db
  unfolding rename_of
  rename_of-Apart w id none me m = ((refl, refl, refl, refl), refl)
  rename_of-Apart w id (some name) me m =
      announced-Apart of_node 200 Body.done _ m
        (rename_room-Apart w.reaches w.nonce w.now_ms me.name id name (rows_of m))

  pub react_in-Apart :
      (w : World) (id msg : Text) (body : Option Text) (me : Identity) (m : Machine)
      → Apart (react_in w id msg body me m).1.db m.db
  unfolding react_in
  react_in-Apart w id msg none me m = ((refl, refl, refl, refl), refl)
  react_in-Apart w id msg (some emoji) me m =
      stored-Apart of_post (λ sent. all_done) _ m
        (send_room_reaction-Apart w.reaches me.name id msg emoji (rows_of m))

  pub delete_room_of-Apart :
      (w : World) (id : Text) (me : Identity) (m : Machine)
      → Apart (delete_room_of w id me m).1.db m.db
  unfolding delete_room_of
  delete_room_of-Apart w id me m =
      announced-Apart of_node 200 Body.done _ m
        (leave_room-Apart w.reaches w.nonce w.now_ms me.name id (rows_of m))

  pub remove_member-Apart :
      (w : World) (id name : Text) (me : Identity) (m : Machine)
      → Apart (remove_member w id name me m).1.db m.db
  unfolding remove_member
  remove_member-Apart w id name me m =
      announced-Apart of_node 200 Body.done _ m
        (remove_room_member-Apart w.reaches w.nonce w.now_ms me.name id name (rows_of m))

  pub accept_room-Apart :
      (w : World) (id : Text) (me : Identity) (m : Machine)
      → Apart (accept_room w id me m).1.db m.db
  unfolding accept_room
  accept_room-Apart w id me m =
      announced-Apart of_node 200 Body.done _ m
        (accept_room_invite-Apart w.reaches w.nonce w.now_ms me.name id (rows_of m))

  pub decline_room-Apart :
      (w : World) (id : Text) (me : Identity) (m : Machine)
      → Apart (decline_room w id me m).1.db m.db
  unfolding decline_room
  decline_room-Apart w id me m =
      announced-Apart of_node 200 Body.done _ m
        (decline_room_invite-Apart w.reaches w.now_ms me.name id (rows_of m))
