-- ===== src/Store/Rows.antt =====
-- The rows of internal/store/store.go and files.go and the buckets that hold them. A row stands in
-- its bucket as the record that json.Marshal wrote. Times are numbers, and the zero time is 0.
use chirp.Prelude.{ℕ, Text, Option, List, Bool}
use chirp.Prelude.Int.{ℤ}
use chirp.Store.Bolt.{Bolt}

pub data Dir : Type 0 where
  dir_in dir_out : Dir

pub data Status : Type 0 where
  queued delivered received : Status

-- A nil PendingKey is none.
pub record Peer : Type 0 where
  pub name : Text
  pub key : Text
  pub fp : Text
  pub first_seen : ℕ
  pub last_seen : ℕ
  pub verified : Bool
  pub pending_key : Option Text
  pub pending_at : ℕ

pub record Message : Type 0 where
  pub id : Text
  pub peer : Text
  pub dir : Dir
  pub body : Text
  pub ts : ℕ
  pub status : Status
  pub attempts : ℕ
  pub last_try : ℕ
  pub seq : ℕ
  pub reply_to : Text

pub data RoomState : Type 0 where
  joined pending unset : RoomState

pub record Room : Type 0 where
  pub id : Text
  pub name : Text
  pub members : List Text
  pub created_by : Text
  pub created_at : ℤ
  pub state : RoomState

pub record RoomReaction : Type 0 where
  pub sender : Text
  pub emoji : Text

pub record RoomMessage : Type 0 where
  pub id : Text
  pub room : Text
  pub sender : Text
  pub dir : Dir
  pub body : Text
  pub ts : ℤ
  pub status : Status
  pub attempts : ℕ
  pub last_try : ℕ
  pub seq : ℕ
  pub reply_to : Text
  pub sender_seq : ℕ
  pub reactions : List RoomReaction

pub data FileStatus : Type 0 where
  queued sending sent receiving complete failed : FileStatus

pub record File : Type 0 where
  pub id : Text
  pub peer : Text
  pub dir : Dir
  pub name : Text
  pub size : ℕ
  pub hash : Text
  pub status : FileStatus
  pub received : ℕ
  pub sent : ℕ
  pub ts : ℕ

-- The buckets, with the counters behind NextSequence of the two that use it.
pub record Db ⦃bolt : Bolt⦄ : Type 0 where
  pub peers : bolt.Bucket Peer
  pub msgs : bolt.Bucket Message
  pub msgs_seq : ℕ
  pub idx : bolt.Bucket Text
  pub outbox : bolt.Bucket Text
  pub rooms : bolt.Bucket Room
  pub room_msgs : bolt.Bucket RoomMessage
  pub room_msgs_seq : ℕ
  pub room_idx : bolt.Bucket Text
  pub room_outbox : bolt.Bucket Text
  pub room_seq : bolt.Bucket ℕ
  pub files : bolt.Bucket File
  pub file_outbox : bolt.Bucket Text

-- The keys of Store: enc_key for every value, id_key for the identity record; none is nil.
pub record Keys : Type 0 where
  pub enc_key : Option Text
  pub id_key : Option Text

pub record Store ⦃bolt : Bolt⦄ : Type 0 where
  pub db : Db
  pub keys : Keys
