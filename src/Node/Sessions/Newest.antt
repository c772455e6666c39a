-- ===== src/Node/Sessions/Newest.antt =====
-- The newest session wins: register and unregister in internal/node/node.go.
use chirp.Prelude.{ℕ, ◌≡◌, false, Text, text_eq_refl, text_eq→eq, some, arith}
use chirp.Node.Sessions.{
  Table, no_sessions, register, unregister, Step, up, down, Steps, done, next,
}

-- A session that has begun and is not closed stands in the table under its name, and what stands
-- there has begun under it.
record Newest (t : Table) : Type 0 where
  stands : (l : ℕ) (key : Text) → t.begun l ≡ some key → t.closed l ≡ false → t.live key ≡ some l
  named : (l : ℕ) (key : Text) → t.live key ≡ some l → t.begun l ≡ some key

start-Newest : Newest no_sessions
start-Newest = record {
  stands = λ l key b c. absurd (ground arith);
  named = λ l key e. absurd (ground arith);
}

kept-Newest : (t u : Table) → Step t u → Newest t → Newest u
unfolding register unregister
kept-Newest _ _ (up t key l fresh) w = record {
  stands =
      λ m k b c. ground (arith, w.stands m k, w.named m key, text_eq→eq key k, text_eq_refl key);
  named = λ m k e. ground (arith, w.named m k, text_eq→eq key k);
}
kept-Newest _ _ (down t key l b) w = record {
  stands = λ m k b' c. ground (arith, w.stands m k, w.named m key, text_eq→eq key k);
  named = λ m k e. ground (arith, w.named m k, text_eq→eq key k);
}

reached-Newest : (t : Table) → Steps no_sessions t → Newest t
reached-Newest t s = go no_sessions t s start-Newest
  where
    go : (t u : Table) → Steps t u → Newest t → Newest u
    go _ _ (done t) w = w
    go t v (next {u = u} s x) w = kept-Newest u v x (go t u s w)

-- However sessions come up and go down, two sessions that have begun under the same name and that
-- the node has not closed are the same session.
pub one_session :
    (t : Table) (l m : ℕ) (key : Text)
    → Steps no_sessions t
    → t.begun l ≡ some key
    → t.begun m ≡ some key
    → t.closed l ≡ false
    → t.closed m ≡ false
    → l ≡ m
one_session t l m key s b b' c c' =
    let w = reached-Newest t s in ground (arith, w.stands l key b c, w.stands m key b' c')
