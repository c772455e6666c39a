-- ===== src/Store/Reads.antt =====
-- What is only read: Messages, Search, ListPeers, ListRooms and RoomMessages of
-- internal/store/store.go. A slice whose bounds Go refuses is a panic.
pub mod Searching
use chirp.Prelude.{
  ℕ, zero, suc, ◌+◌, ◌-◌, Bool, true, false, ◌&&◌, ◌||◌, not, List, [], ◌∷◌, ◌++◌, Text, codes,
  text_eq, text_ltb, Option, none, some, Result, ok, err, ◌>>=◌, wrap, ltb, leb, length, take, drop,
  if◌then◌else◌,
}
use chirp.Prelude.Int.{ℤ, pos, negsuc}
use chirp.Crypto.Aead.{Aead}
use chirp.Store.Bolt.{Bolt}
use chirp.Store.Casing.{Casing}
use chirp.Store.Rows.{Peer, Message, Room, RoomMessage, Db, Store, Keys}
use chirp.Store.Errors.{StoreError, Res}
use chirp.Store.Seals.{decrypt}
use chirp.Store.Peers.{peer_key}
use chirp.Store.Messages.{decrypt_message}
use chirp.Store.Rooms.{has_prefix, decrypt_room}
use chirp.Store.Rooms.Reactions.{decrypt_room_message}

pub data SearchError : Type 0 where
  store : StoreError → SearchError
  slice_out_of_range : SearchError

pub record SearchResult : Type 0 where
  pub message : Message
  pub snippet : Text

-- A limit out of its range is replaced.
abbrev pub limit_within : ℕ → ℕ → ℤ → ℕ
limit_within top default (pos zero) = default
limit_within top default (pos (suc n)) = if ltb top (suc n) then default else suc n
limit_within top default (negsuc n) = default

-- strings.Index
unfoldable pub index : Text → Text → Option ℕ
index [] sub = if text_eq sub [] then some 0 else none
index (b ∷ s) sub =
    let rest = index s sub in
    if has_prefix (b ∷ s) sub then some 0 else elim rest [ none ↦ none | some n ↦ some (suc n) ]

-- s[start:end]
unfoldable pub slice : ℕ → ℕ → Text → Option Text
slice start end s =
    if leb start end && leb end (length s) then some (take (end - start) (drop start s)) else none

abbrev pub dots : Text
dots = codes "..."

abbrev pub snippet_end : ℕ → Text → Text → ℕ
snippet_end idx query body =
    if ltb (length body) (idx + length query + 40) then length body else idx + length query + 40

-- The part of the body around the place where the query stands in its lower-case form.
unfoldable pub snippet_at : ℕ → Text → Text → Option Text
snippet_at idx query body =
    let end = snippet_end idx query body in
    elim (slice (idx - 20) end body) [
      | none ↦ none
      | some part ↦ some (
          (if ltb 0 (idx - 20) then dots else [])
          ++ part
          ++ (if ltb end (length body) then dots else []))
    ]

unfoldable pub hit : Message → Option Text → Result SearchError SearchResult
hit m none = err slice_out_of_range
hit m (some part) = ok (record { message = m; snippet = part })

reverse_onto {ℓ} : {A : Type ℓ} → List A → List A → List A
reverse_onto done [] = done
reverse_onto done (x ∷ l) = reverse_onto (x ∷ done) l

unfoldable pub reverse {ℓ} : {A : Type ℓ} → List A → List A
unfolding reverse_onto
reverse l = reverse_onto [] l

module _ {V : Type 0} where
  below : Text → List (Text × V) → List (Text × V)
  below upper [] = []
  below upper ((k, v) ∷ l) =
      let rest = below upper l in if text_ltb k upper then (k, v) ∷ rest else []

  while_prefix : ℕ → Text → List (Text × V) → List V
  while_prefix zero prefix l = []
  while_prefix (suc n) prefix [] = []
  while_prefix (suc n) prefix ((k, v) ∷ l) =
      let rest = while_prefix n prefix l in if has_prefix k prefix then v ∷ rest else []

  -- The cursor goes to the last key below prefix ++ ff ff ff ff ff ff ff ff and walks back while the
  -- keys have the prefix.
  unfoldable pub newest_first : ℕ → Text → List (Text × V) → List V
  unfolding below while_prefix reverse
  newest_first limit prefix l =
      let upper = prefix ++ 255 ∷ 255 ∷ 255 ∷ 255 ∷ 255 ∷ 255 ∷ 255 ∷ 255 ∷ [] in
      while_prefix limit prefix (reverse (below upper l))

  unfoldable pub each : {W : Type 0} → (V → Res W) → List V → Res (List W)
  each f [] = ok []
  each f (v ∷ l) = do w ← f v; rest ← each f l; ok (w ∷ rest)

  unfoldable pub values : List (Text × V) → List V
  values [] = []
  values ((k, v) ∷ l) = v ∷ values l

module _ ⦃a : Aead⦄ where
  -- An empty PendingKey is left as it is.
  decrypt_pending : Keys → Option Text → Res (Option Text)
  decrypt_pending keys none = ok none
  decrypt_pending keys (some []) = ok (some [])
  decrypt_pending keys (some (b ∷ key)) = do plain ← decrypt keys (b ∷ key); ok (some plain)

  decrypt_peer : Keys → Peer → Res Peer
  unfolding decrypt_pending
  decrypt_peer keys p = do
    key ← decrypt keys p.key
    pending ← decrypt_pending keys p.pending_key
    ok (record p { key = key; pending_key = pending })

module _ ⦃bolt : Bolt⦄ ⦃a : Aead⦄ where
  unfoldable pub list_peers : Store → Res (List Peer)
  unfolding decrypt_peer values each
  list_peers s = each (decrypt_peer s.keys) (values (bolt.pairs s.db.peers))

  unfoldable pub list_rooms : Store → Res (List Room)
  unfolding values each
  list_rooms s = each (decrypt_room s.keys) (values (bolt.pairs s.db.rooms))

  module _ ⦃casing : Casing⦄ where
    unfoldable pub messages : Text → ℤ → Store → Res (List Message)
    unfolding newest_first each reverse
    messages peer limit s = do
      out ← each (decrypt_message s.keys) (
          newest_first (limit_within 1000 200 limit) (peer_key peer ++ 0 ∷ [])
            (bolt.pairs s.db.msgs))
      ok (reverse out)

    unfoldable pub room_messages : Text → ℤ → Store → Res (List RoomMessage)
    unfolding newest_first each reverse
    room_messages room limit s = do
      out ← each (decrypt_room_message s.keys) (
          newest_first (limit_within 1000 200 limit) (casing.to_lower room ++ 0 ∷ [])
            (bolt.pairs s.db.room_msgs))
      ok (reverse out)

    -- The number is how many results may still be taken; the rows after them are not read.
    unfoldable pub search_rows :
        Keys → Text → ℕ → List (Text × Message) → Result SearchError (List SearchResult)
    search_rows keys query zero l = ok []
    search_rows keys query (suc left) [] = ok []
    search_rows keys query (suc left) ((k, m) ∷ l) =
        let skipped = search_rows keys query (suc left) l in
        let taken = search_rows keys query left l in
        elim (decrypt_message keys m) [
          | err e ↦ err (store e)
          | ok n ↦ elim (index (casing.to_lower n.body) query) [
            | none ↦ skipped
            | some idx ↦ do r ← hit n (snippet_at idx query n.body); rest ← taken; ok (r ∷ rest)
          ]
        ]

    unfoldable pub search : Text → ℤ → Store → Result SearchError (List SearchResult)
    search query limit s =
        let lower = casing.to_lower query in
        if text_eq lower []
        then ok []
        else search_rows s.keys lower (limit_within 100 20 limit) (bolt.pairs s.db.msgs)
