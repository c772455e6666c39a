-- ===== src/Discovery/MemoryLaws.antt =====
-- What a browser that starts late learns from the hub of internal/discovery/memory.go.
use chirp.Prelude.{
  ℕ, zero, suc, ◌-◌, ◌<◌, ◌≤◌, ◌≡◌, refl, List, [], ◌∷◌, ◌++◌, append_assoc, append-nil, Bool-cases,
  inl, inr, true, length, length-append, take, ltb, All, arith,
}
use chirp.Discovery.{Announcement, Event}
use chirp.Discovery.Memory.{Hub, event, try_send, tell_each, browse, dropped}

-- What is announced, as a browser sees it.
unfoldable pub announcements : List (ℕ × Announcement) → List Event
announcements [] = []
announcements ((id, a) ∷ l) = event true a ∷ announcements l

take_nil : (n : ℕ) → take {A = Event} n [] ≡ []
take_nil zero = refl
take_nil (suc n) = refl

tell_each-take :
    (l : List (ℕ × Announcement)) (q : List Event)
    → length q ≤ 64
    → tell_each l q ≡ q ++ take (64 - length q) (announcements l)
unfolding tell_each announcements try_send
tell_each-take [] q h = rw (take_nil (64 - length q), append-nil q) refl
tell_each-take ((id, a) ∷ l) q h = elim (Bool-cases (ltb (length q) 64)) [
  | inl y ↦
      let room : length q < 64 = ground arith in
      let len : length (q ++ (event true a ∷ [])) ≡ suc (length q) =
        rw (length-append q (event true a ∷ [])) (omega arith) in
      let k : 64 - length q ≡ suc (64 - suc (length q)) = omega arith in
      let ih = tell_each-take l (q ++ (event true a ∷ [])) (omega arith) in
      rw (y, k)
        (ground (
          arith,
          rw len at ih,
          append_assoc q (event true a ∷ []) (take (64 - suc (length q)) (announcements l)),
        ))
  | inr n ↦ ground (arith, tell_each-take l q h)
]

-- A new browser finds the first 64 announced services in its channel, and the others nothing new.
pub browse-take :
    (order : List (ℕ × Announcement)) (h : Hub)
    → (browse order h).1.browsers ≡ ((browse order h).0, take 64 (announcements order)) ∷ h.browsers
unfolding browse
browse-take order h = ground (arith, tell_each-take order [])

-- One by one, each entry of l is taken once: what a range over a map may do.
abbrev pub Ranges : {A : Type 0} → List A → List A → Type 0
Ranges {A} [] l = l ≡ []
Ranges {A} (x ∷ r) l =
    (front : List A) × (back : List A) × (l ≡ front ++ (x ∷ back)) × Ranges r (front ++ back)

Ranges-length : {A : Type 0} (r l : List A) → Ranges r l → length r ≡ length l
Ranges-length [] l h = ground arith
Ranges-length (x ∷ r) l (front, back, e, h) = ground (
  arith,
  Ranges-length r (front ++ back) h,
  length-append front (x ∷ back),
  length-append front back,
)

announcements-append :
    (k l : List (ℕ × Announcement)) → announcements (k ++ l) ≡ announcements k ++ announcements l
unfolding announcements
announcements-append [] l = refl
announcements-append ((id, a) ∷ k) l = ground (arith, announcements-append k l)

Ranges-announcements :
    (r l : List (ℕ × Announcement)) → Ranges r l → Ranges (announcements r) (announcements l)
unfolding announcements
Ranges-announcements [] l h = ground arith
Ranges-announcements ((id, a) ∷ r) l (front, back, e, h) = (
  announcements front,
  announcements back,
  ground (arith, announcements-append front ((id, a) ∷ back)),
  rw (← announcements-append front back) (Ranges-announcements r (front ++ back) h),
)

length-announcements : (l : List (ℕ × Announcement)) → length (announcements l) ≡ length l
unfolding announcements
length-announcements [] = refl
length-announcements ((id, a) ∷ l) = ground (arith, length-announcements l)

take_all : (n : ℕ) (l : List Event) → length l ≤ n → take n l ≡ l
take_all n [] h = take_nil n
take_all zero (e ∷ l) h = absurd (ground arith)
take_all (suc n) (e ∷ l) h = ground (arith, take_all n l)

-- Up to 64 services are all told, in some order.
pub browse-Ranges :
    (order : List (ℕ × Announcement)) (h : Hub)
    → Ranges order h.announced
    → length h.announced ≤ 64
    → (q : List Event) × ((browse order h).1.browsers ≡ ((browse order h).0, q) ∷ h.browsers)
      × Ranges q (announcements h.announced)
browse-Ranges order h r n = (
  announcements order,
  ground (
    arith,
    browse-take order h,
    Ranges-length order h.announced r,
    length-announcements order,
    take_all 64 (announcements order),
  ),
  Ranges-announcements order h.announced r,
)

-- What is left after the contexts have ended, one after the other.
unfoldable pub dropped_each : {A : Type 0} → List (ℕ × A) → List (ℕ × A) → List (ℕ × A)
dropped_each [] l = l
dropped_each ((id, a) ∷ o) l = dropped_each o (dropped id l)

dropped-dropped :
    {A : Type 0} (i j : ℕ) (l : List (ℕ × A)) → dropped i (dropped j l) ≡ dropped j (dropped i l)
unfolding dropped
dropped-dropped i j [] = refl
dropped-dropped i j ((n, a) ∷ l) = ground (arith, dropped-dropped i j l)

dropped_each-middle :
    {A : Type 0} (id : ℕ) (a : A) (front back l : List (ℕ × A))
    → dropped_each (front ++ ((id, a) ∷ back)) l ≡ dropped_each (front ++ back) (dropped id l)
unfolding dropped_each
dropped_each-middle id a [] back l = refl
dropped_each-middle id a ((n, b) ∷ front) back l =
    ground (arith, dropped_each-middle id a front back (dropped n l), dropped-dropped id n l)

-- The order in which they end does not matter.
pub dropped_each-Ranges :
    {A : Type 0} (o r l : List (ℕ × A)) → Ranges o r → dropped_each o l ≡ dropped_each r l
unfolding dropped_each
dropped_each-Ranges [] r l h = rw h refl
dropped_each-Ranges ((id, a) ∷ o) r l (front, back, e, h) =
    rw (e, dropped_each-middle id a front back l)
      (dropped_each-Ranges o (front ++ back) (dropped id l) h)

-- A number that has not been drawn stands nowhere.
pub dropped-new :
    {A : Type 0} (id next : ℕ) (l : List (ℕ × A))
    → All (λ (x : ℕ × A). x.0 ≤ next) l
    → next < id
    → dropped id l ≡ l
unfolding dropped
dropped-new id next [] h b = refl
dropped-new id next ((n, a) ∷ l) h b = ground (arith, dropped-new id next l h.1 b)
