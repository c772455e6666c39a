-- ===== src/Api/Answers.antt =====
-- What a handler of internal/api/api.go answers with: writeJSON, writeErr, fail, and what errors.Is
-- makes of the errors of the packages below. The texts of errors are left out.
use chirp.Prelude.{ℕ, Bool, Text, List, Option}
use chirp.Identity.Backup.{BackupFile}
use chirp.Store.Errors.{StoreError, not_found}
use chirp.Store.Rows.{Message, RoomMessage, File}
use chirp.Store.Meta.{Settings}
use chirp.Store.Reads.{SearchResult}
use chirp.Node.Outbox.{SendError}
use chirp.Node.OwnRooms.{NodeError}
use chirp.Node.RoomPosts.{PostError}
use chirp.Node.Roster.{Me, PeerView}
use chirp.Node.RoomViews.{RoomView}
use chirp.Node.Views.{SignalError, RenameError}

-- The errors that fail tells apart.
pub data Failure : Type 0 where
  unknown_peer missing key_changed bad_body bad_passphrase other : Failure

-- A room and a message of a room that have just been made are given by their ids.
pub data Body : Type 0 where
  error done nothing : Body
  state : Bool → Bool → Option Me → Body
  me : Me → Body
  peers : List PeerView → Body
  rooms : List RoomView → Body
  room : RoomView → Body
  settings : Settings → Body
  address : Text → Text → Text → Body
  message : Option Message → Body
  messages : List Message → Body
  results : List SearchResult → Body
  room_messages : List RoomMessage → Body
  file : File → Body
  files : List File → Body
  created : Text → Text → Body
  row : Text → Body
  bytes : Text → Text → Text → Body
  backup : BackupFile → Body

pub record Response : Type 0 where
  pub status : ℕ
  pub body : Body

abbrev pub answer : ℕ → Body → Response
answer status body = record { status = status; body = body }

abbrev pub write_err : ℕ → Response
write_err status = answer status error

abbrev pub all_done : Response
all_done = answer 200 done

-- A panic of a handler: net/http closes the connection without an answer.
abbrev pub aborted : Response
aborted = answer 0 nothing

unfoldable pub fail : Failure → Response
fail unknown_peer = write_err 404
fail missing = write_err 404
fail key_changed = write_err 409
fail bad_body = write_err 400
fail bad_passphrase = write_err 401
fail other = write_err 500

-- store.ErrNotFound; ErrFileNotFound is another error.
abbrev pub of_store : StoreError → Failure
of_store not_found = missing
of_store e = other

abbrev pub of_send : SendError → Failure
of_send SendError.bad_body = bad_body
of_send SendError.unknown_peer = unknown_peer
of_send SendError.key_changed = key_changed
of_send SendError.size_out_of_range = other
of_send (SendError.store e) = of_store e

abbrev pub of_signal : SignalError → Failure
of_signal SignalError.no_session = unknown_peer
of_signal e = other

abbrev pub of_rename : RenameError → Failure
of_rename RenameError.bad_display_name = other
of_rename (RenameError.store e) = of_store e

abbrev pub of_node : NodeError → Failure
of_node (NodeError.store e) = of_store e
of_node e = other

-- Among them ErrBadBody of SendRoomMessage.
abbrev pub of_post : PostError → Failure
of_post PostError.bad_body = bad_body
of_post (PostError.store e) = of_store e
of_post e = other
