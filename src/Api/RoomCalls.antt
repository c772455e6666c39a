-- ===== src/Api/RoomCalls.antt =====
-- The handlers of internal/api/api.go for rooms: createRoom, getRoom, roomMessages, sendRoomMessage,
-- deleteRoom, addRoomMember, removeRoomMember, renameRoom, reactRoomMessage, acceptRoom and
-- declineRoom. What is sent to members is left out of the answers.
pub mod Mail
use chirp.Prelude.{Text, List, Option}
use chirp.Prelude.Int.{pos}
use chirp.Crypto.Aead.{Aead}
use chirp.Store.Bolt.{Bolt}
use chirp.Store.Casing.{Casing}
use chirp.Store.Meta.{Identity}
use chirp.Store.Reads.{room_messages}
use chirp.Node.OwnRooms.{
  add_room_member, remove_room_member, leave_room, rename_room, accept_room_invite,
  decline_room_invite,
}
use chirp.Node.RoomPosts.{create_own_room, send_room_message, send_room_reaction}
use chirp.Api.Answers.{Response, Body, answer, all_done, of_store, of_node, of_post}
use chirp.Api.Server.{Machine, World, rows_of, read_json, shown, stored, announced}

module _ ⦃bolt : Bolt⦄ ⦃casing : Casing⦄ ⦃a : Aead⦄ where
  unfoldable pub post_room :
      World → Option (Text × List Text) → Identity → Machine → Response × Machine
  post_room w body me m =
      read_json body
        (λ (name, members).
          announced of_post 201 (Body.row w.id)
            (create_own_room w.reaches w.nonce w.id w.now_ms me.name name members (rows_of m)) m)
        m

  unfoldable pub messages_in : Text → Machine → Response × Machine
  messages_in id m =
      shown of_store 200 Body.room_messages (room_messages id (pos 300) (rows_of m)) m

  unfoldable pub post_message : World → Text → Option Text → Identity → Machine → Response × Machine
  post_message w id body me m =
      read_json body
        (λ text.
          stored of_post (λ sent. answer 201 (Body.row w.id))
            (send_room_message w.timing w.reaches w.takes w.nonce w.id w.now_ms me.name id text
              (rows_of m))
            m)
        m

  unfoldable pub delete_room_of : World → Text → Identity → Machine → Response × Machine
  delete_room_of w id me m =
      announced of_node 200 Body.done (leave_room w.reaches w.nonce w.now_ms me.name id (rows_of m))
        m

  unfoldable pub add_member : World → Text → Option Text → Identity → Machine → Response × Machine
  add_member w id body me m =
      read_json body
        (λ name.
          announced of_node 200 Body.done
            (add_room_member w.reaches w.nonce w.now_ms me.name id name (rows_of m)) m)
        m

  unfoldable pub remove_member : World → Text → Text → Identity → Machine → Response × Machine
  remove_member w id name me m =
      announced of_node 200 Body.done
        (remove_room_member w.reaches w.nonce w.now_ms me.name id name (rows_of m)) m

  unfoldable pub rename_of : World → Text → Option Text → Identity → Machine → Response × Machine
  rename_of w id body me m =
      read_json body
        (λ name.
          announced of_node 200 Body.done
            (rename_room w.reaches w.nonce w.now_ms me.name id name (rows_of m)) m)
        m

  unfoldable pub react_in :
      World → Text → Text → Option Text → Identity → Machine → Response × Machine
  react_in w id msg body me m =
      read_json body
        (λ emoji.
          stored of_post (λ sent. all_done)
            (send_room_reaction w.reaches me.name id msg emoji (rows_of m)) m)
        m

  unfoldable pub accept_room : World → Text → Identity → Machine → Response × Machine
  accept_room w id me m =
      announced of_node 200 Body.done
        (accept_room_invite w.reaches w.nonce w.now_ms me.name id (rows_of m)) m

  unfoldable pub decline_room : World → Text → Identity → Machine → Response × Machine
  decline_room w id me m =
      announced of_node 200 Body.done
        (decline_room_invite w.reaches w.now_ms me.name id (rows_of m)) m
