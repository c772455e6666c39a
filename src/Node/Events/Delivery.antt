-- ===== src/Node/Events/Delivery.antt =====
-- What a subscriber of internal/node/events.go receives.
use chirp.Prelude.{
  ℕ, ◌<◌, ◌≡◌, refl, ap, false, List, [], ◌∷◌, ◌++◌, append_assoc, append-nil, none, some, length,
  take, drop, ◌==◌, ltb, arith, if◌then◌else◌, Bool-cases, inl, inr,
}
use chirp.Node.Events.{
  Event, Sub, Subs, try_send, subscribe, unsubscribe, without, offer_each, emit, take_from, channel,
}

-- What happens to the channels, one thing after another.
pub data Act : Type 0 where
  joined : Act
  left received : ℕ → Act
  emitted : Event → Act

abbrev pub act : Act → Subs → Subs
act joined s = (subscribe s).1
act (left id) s = unsubscribe id s
act (received id) s = record s { subs = take_from id s.subs }
act (emitted e) s = emit e s

unfoldable pub run : List Act → Subs → Subs
run [] s = s
run (a ∷ l) s = run l (act a s)

unfoldable pub emissions : List Act → List Event
emissions [] = []
emissions (emitted e ∷ l) = e ∷ emissions l
emissions (_ ∷ l) = emissions l

-- What stands in a channel; nothing in one that is closed.
abbrev pub waiting : ℕ → Subs → List Event
waiting id s = elim (channel id s.subs) [ none ↦ [] | some q ↦ q ]

-- What this subscriber has received in the end.
unfoldable pub receipts : ℕ → List Act → Subs → List Event
receipts id [] s = []
receipts id (received j ∷ l) s =
    let rest = receipts id l (act (received j) s) in
    if j == id then take 1 (waiting id s) ++ rest else rest
receipts id (a ∷ l) s = receipts id l (act a s)

-- It does not unsubscribe.
abbrev pub Stays : ℕ → List Act → Type 0
Stays id [] = Unit {0}
Stays id (left j ∷ l) = (j == id ≡ false) × Stays id l
Stays id (_ ∷ l) = Stays id l

-- Its channel has room whenever something is sent.
abbrev pub KeepsUp : ℕ → List Act → Subs → Type 0
KeepsUp id [] s = Unit {0}
KeepsUp id (emitted e ∷ l) s = (length (waiting id s) < 64) × KeepsUp id l (emit e s)
KeepsUp id (a ∷ l) s = KeepsUp id l (act a s)

-- The first list, with more in between.
pub data Sublist {A : Type 0} : List A → List A → Type 0 where
  done : Sublist [] []
  keep : {xs ys : List A} (x : A) → Sublist xs ys → Sublist (x ∷ xs) (x ∷ ys)
  skip : {xs ys : List A} (y : A) → Sublist xs ys → Sublist xs (y ∷ ys)

module _ {A : Type 0} where
  Sublist_refl : (xs : List A) → Sublist xs xs
  Sublist_refl [] = done
  Sublist_refl (x ∷ xs) = keep x (Sublist_refl xs)

  Sublist_trans : {ys zs : List A} → Sublist ys zs → {xs : List A} → Sublist xs ys → Sublist xs zs
  Sublist_trans done h = h
  Sublist_trans (keep x k) (keep _ h) = keep x (Sublist_trans k h)
  Sublist_trans (keep x k) (skip _ h) = skip x (Sublist_trans k h)
  Sublist_trans (skip y k) h = skip y (Sublist_trans k h)

  skip_inside : (xs : List A) (y : A) (ys : List A) → Sublist (xs ++ ys) (xs ++ (y ∷ ys))
  skip_inside [] y ys = skip y (Sublist_refl ys)
  skip_inside (x ∷ xs) y ys = keep x (skip_inside xs y ys)

channel-offer_each :
    (e : Event) (id : ℕ) (l : List Sub) (q : List Event)
    → channel id l ≡ some q
    → channel id (offer_each e l) ≡ some (try_send e q)
unfolding channel offer_each
channel-offer_each e id [] q h = absurd (ground arith)
channel-offer_each e id (s ∷ l) q h = ground (arith, channel-offer_each e id l q)

channel-without :
    (j id : ℕ) (l : List Sub) → (j == id) ≡ false → channel id (without j l) ≡ channel id l
unfolding channel without
channel-without j id [] h = refl
channel-without j id (s ∷ l) h = ground (arith, channel-without j id l h)

channel-take_from :
    (j id : ℕ) (l : List Sub)
    → channel id (take_from j l)
      ≡ elim (channel id l) [ none ↦ none | some q ↦ some (if j == id then drop 1 q else q) ]
unfolding channel take_from
channel-take_from j id [] = refl
channel-take_from j id (s ∷ l) = ground (arith, channel-take_from j id l)

-- A channel that stands open, whose number is not taken again.
abbrev pub IsOpen : ℕ → List Event → Subs → Type 0
IsOpen id q s = (id < s.next_sub) × (channel id s.subs ≡ some q)

joined-IsOpen : (id : ℕ) (q : List Event) (s : Subs) → IsOpen id q s → IsOpen id q (act joined s)
unfolding subscribe channel
joined-IsOpen id q s h = ground arith

left-IsOpen :
    (id j : ℕ) (q : List Event) (s : Subs)
    → (j == id) ≡ false
    → IsOpen id q s
    → IsOpen id q (act (left j) s)
unfolding unsubscribe
left-IsOpen id j q s n h = ground (arith, channel-without j id s.subs n)

emitted-IsOpen :
    (id : ℕ) (e : Event) (q : List Event) (s : Subs)
    → IsOpen id q s
    → IsOpen id (try_send e q) (act (emitted e) s)
unfolding emit
emitted-IsOpen id e q s h = ground (arith, channel-offer_each e id s.subs q)

received-IsOpen :
    (id j : ℕ) (q : List Event) (s : Subs)
    → IsOpen id q s
    → IsOpen id (if j == id then drop 1 q else q) (act (received j) s)
received-IsOpen id j q s h = ground (arith, channel-take_from j id s.subs)

waiting-IsOpen : (id : ℕ) (q : List Event) (s : Subs) → IsOpen id q s → waiting id s ≡ q
waiting-IsOpen id q s h = ground arith

try_send-Sublist : (e : Event) (q l : List Event) → Sublist (try_send e q ++ l) (q ++ (e ∷ l))
unfolding try_send
try_send-Sublist e q l = elim (Bool-cases (ltb (length q) 64)) [
  | inr n ↦ rw n (skip_inside q e l)
  | inl y ↦ rw (y, append_assoc q (e ∷ []) l) (Sublist_refl (q ++ (e ∷ l)))
]

receive-Sublist :
    (q got rest sent : List Event)
    → Sublist (got ++ rest) (drop 1 q ++ sent)
    → Sublist ((take 1 q ++ got) ++ rest) (q ++ sent)
receive-Sublist [] got rest sent h = h
receive-Sublist (x ∷ q) got rest sent h = keep x h

run-Sublist :
    (id : ℕ) (l : List Act) (s : Subs) (q : List Event)
    → Stays id l
    → IsOpen id q s
    → Sublist (receipts id l s ++ waiting id (run l s)) (q ++ emissions l)
unfolding receipts run emissions
run-Sublist id [] s q st h = rw (waiting-IsOpen id q s h, append-nil q) (Sublist_refl q)
run-Sublist id (joined ∷ l) s q st h = run-Sublist id l (act joined s) q st (joined-IsOpen id q s h)
run-Sublist id (left j ∷ l) s q (n, st) h =
    run-Sublist id l (act (left j) s) q st (left-IsOpen id j q s n h)
run-Sublist id (emitted e ∷ l) s q st h =
    Sublist_trans (try_send-Sublist e q (emissions l))
      (run-Sublist id l (emit e s) (try_send e q) st (emitted-IsOpen id e q s h))
run-Sublist id (received j ∷ l) s q st h =
    let next = act (received j) s in
    let open' = received-IsOpen id j q s h in
    elim (Bool-cases (j == id)) [
      | inl y ↦
          rw (y, receipts, waiting-IsOpen id q s h)
            (receive-Sublist q (receipts id l next) (waiting id (run l next)) (emissions l)
              (run-Sublist id l next (drop 1 q) st (rw y at open')))
      | inr n ↦ rw (n, receipts) (run-Sublist id l next q st (rw n at open'))
    ]

-- What a subscriber has received and what waits in its channel are events that were emitted since
-- it subscribed, in their order and each at most once, whoever else comes and goes, as long as it
-- does not unsubscribe.
pub emit-Sublist :
    (s : Subs) (l : List Act)
    → Stays s.next_sub l
    → Sublist
        (receipts s.next_sub l (act joined s) ++ waiting s.next_sub (run l (act joined s)))
        (emissions l)
unfolding subscribe channel
emit-Sublist s l st = run-Sublist s.next_sub l (act joined s) [] st (ground arith)

try_send-room : (e : Event) (q l : List Event) → length q < 64 → try_send e q ++ l ≡ q ++ (e ∷ l)
unfolding try_send
try_send-room e q l h = ground (arith, append_assoc q (e ∷ []) l)

receive-all :
    (q got rest sent : List Event)
    → got ++ rest ≡ drop 1 q ++ sent
    → (take 1 q ++ got) ++ rest ≡ q ++ sent
receive-all [] got rest sent h = h
receive-all (x ∷ q) got rest sent h = ap (◌∷◌ x) h

run-all :
    (id : ℕ) (l : List Act) (s : Subs) (q : List Event)
    → Stays id l
    → KeepsUp id l s
    → IsOpen id q s
    → receipts id l s ++ waiting id (run l s) ≡ q ++ emissions l
unfolding receipts run emissions
run-all id [] s q st up h = ground (arith, append-nil q)
run-all id (joined ∷ l) s q st up h = run-all id l (act joined s) q st up (joined-IsOpen id q s h)
run-all id (left j ∷ l) s q (n, st) up h =
    run-all id l (act (left j) s) q st up (left-IsOpen id j q s n h)
run-all id (emitted e ∷ l) s q st (room, up) h = ground (
  arith,
  run-all id l (emit e s) (try_send e q) st up (emitted-IsOpen id e q s h),
  try_send-room e q (emissions l) (rw (waiting-IsOpen id q s h) at room),
)
run-all id (received j ∷ l) s q st up h =
    let next = act (received j) s in
    let open' = received-IsOpen id j q s h in
    elim (Bool-cases (j == id)) [
      | inl y ↦
          rw (y, receipts, waiting-IsOpen id q s h)
            (receive-all q (receipts id l next) (waiting id (run l next)) (emissions l)
              (run-all id l next (drop 1 q) st up (rw y at open')))
      | inr n ↦ rw (n, receipts) (run-all id l next q st up (rw n at open'))
    ]

-- A subscriber whose channel has room whenever something is emitted, and that does not unsubscribe,
-- misses nothing: what it has received and what waits are all events since it subscribed, in their
-- order.
pub emit_complete :
    (s : Subs) (l : List Act)
    → Stays s.next_sub l
    → KeepsUp s.next_sub l (act joined s)
    → receipts s.next_sub l (act joined s) ++ waiting s.next_sub (run l (act joined s))
      ≡ emissions l
unfolding subscribe channel
emit_complete s l st up = run-all s.next_sub l (act joined s) [] st up (ground arith)
