-- ===== src/Node/Events.antt =====
-- Subscribe, emit and logf of internal/node/events.go: the channels of the subscribers, of 64 events
-- each, and the lines that are kept for diagnostics. Progress, a float, is not in an event.
pub mod Delivery
pub mod Log
use chirp.Prelude.{
  ℕ, suc, ◌+◌, ◌-◌, ◌==◌, Bool, true, false, List, [], ◌∷◌, ◌++◌, Text, Option, none, some, ltb,
  length, drop, if◌then◌else◌,
}
use chirp.Store.Rows.{Message, RoomMessage}

pub data EventType : Type 0 where
  peers message status outbox reaction typing read : EventType
  file file_progress file_complete me file_outbox room room_message room_status : EventType

pub record Event : Type 0 where
  pub type : EventType
  pub peer : Text
  pub message : Option Message
  pub emoji : Text
  pub target : Text
  pub file_id : Text
  pub file_src : Text
  pub file_size : ℕ
  pub file_hash : Text
  pub room : Text
  pub room_message : Option RoomMessage

-- A channel that is open: what has been sent and not yet received.
pub record Sub : Type 0 where
  pub id : ℕ
  pub events : List Event

pub record Subs : Type 0 where
  pub next_sub : ℕ
  pub subs : List Sub

abbrev pub channel_size : ℕ
channel_size = 64

-- A send that does not wait: a full channel drops the event.
unfoldable pub try_send : Event → List Event → List Event
try_send e q = if ltb (length q) channel_size then q ++ (e ∷ []) else q

unfoldable pub subscribe : Subs → ℕ × Subs
subscribe s = (
  s.next_sub,
  record { next_sub = suc s.next_sub; subs = record { id = s.next_sub; events = [] } ∷ s.subs },
)

unfoldable pub without : ℕ → List Sub → List Sub
without id [] = []
without id (s ∷ l) = let rest = without id l in if s.id == id then rest else s ∷ rest

unfoldable pub unsubscribe : ℕ → Subs → Subs
unsubscribe id s = record s { subs = without id s.subs }

unfoldable pub offer_each : Event → List Sub → List Sub
offer_each e [] = []
offer_each e (s ∷ l) = record s { events = try_send e s.events } ∷ offer_each e l

unfoldable pub emit : Event → Subs → Subs
emit e s = record s { subs = offer_each e s.subs }

-- A subscriber receives the oldest event of its channel.
unfoldable pub take_from : ℕ → List Sub → List Sub
take_from id [] = []
take_from id (s ∷ l) =
    let rest = take_from id l in
    if s.id == id then record s { events = drop 1 s.events } ∷ rest else s ∷ rest

unfoldable pub channel : ℕ → List Sub → Option (List Event)
channel id [] = none
channel id (s ∷ l) = let rest = channel id l in if s.id == id then some s.events else rest

pub record LogEntry : Type 0 where
  pub at : ℕ
  pub msg : Text

abbrev pub log_cap : ℕ
log_cap = 200

unfoldable pub logf : LogEntry → List LogEntry → List LogEntry
logf entry log =
    let all = log ++ (entry ∷ []) in
    if ltb log_cap (length all) then drop (length all - log_cap) all else all

-- One after another.
unfoldable pub log_each : List LogEntry → List LogEntry → List LogEntry
log_each [] log = log
log_each (e ∷ l) log = log_each l (logf e log)
