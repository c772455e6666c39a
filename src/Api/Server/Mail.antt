-- ===== src/Api/Server/Mail.antt =====
-- How the answers of the handlers change the messages that the machine keeps.
use chirp.Prelude.{
  ◌⊎◌, Text, none, some, ℕ, ◌≡◌, refl, Option-cases, arith, inl, inr, Result, ok, err,
}
use chirp.Crypto.Aead.{Aead}
use chirp.Identity.Fingerprint.{Sha256}
use chirp.Store.Bolt.{Bolt}
use chirp.Store.Casing.{Casing}
use chirp.Store.Rows.{Store}
use chirp.Store.Peers.Pins.{Filed}
use chirp.Store.Peers.History.{Keeps, peers-Keeps, Keeps-then}
use chirp.Store.Messages.Indexed.{Indexed}
use chirp.Store.Meta.{Identity}
use chirp.Store.Messages.Mail.{SameMail, Apart, Next, Quiet, same-Next, Apart-Quiet}
use chirp.Node.OwnRooms.Mail.{Leaves}
use chirp.Api.Answers.{Response, Body, Failure}
use chirp.Api.Server.{Machine, rows_of, announced, stored, need_node}

module _ ⦃bolt : Bolt⦄ ⦃casing : Casing⦄ where
  -- The rows after a call, from those before.
  abbrev pub After : Machine → Response × Machine → Type 0
  After m r = Next (rows_of m) (rows_of r.1)

module _ ⦃bolt : Bolt⦄ where
  pub announced-Apart :
      {E A : Type 0} (of : E → Failure) (status : ℕ) (body : Body) (r : Result E (A × Store))
      (m : Machine)
      → Leaves r (rows_of m)
      → Apart (announced of status body r m).1.db m.db
  announced-Apart of status body (ok (out, t)) m h = h
  announced-Apart of status body (err e) m h = ((refl, refl, refl, refl), refl)

  pub stored-Apart :
      {E A : Type 0} (of : E → Failure) (body : A → Response) (r : Result E A × Store) (m : Machine)
      → Apart r.1.db m.db
      → Apart (stored of body r m).1.db m.db
  stored-Apart of body (ok a, t) m h = h
  stored-Apart of body (err e, t) m h = h

module _ ⦃bolt : Bolt⦄ ⦃casing : Casing⦄ where
  pub same-After :
      (m : Machine) (r : Response × Machine) → SameMail r.1.db m.db → Indexed m.db → After m r
  same-After m r h w = same-Next (rows_of m) (rows_of r.1) h w

module _ ⦃bolt : Bolt⦄ ⦃casing : Casing⦄ ⦃a : Aead⦄ ⦃sha : Sha256⦄ where
  -- Every pin stays.
  abbrev pub KeepsAll : Machine → Response × Machine → Type 0
  KeepsAll m r = (n : Text) → Filed m.db → Keeps (rows_of m) (rows_of r.1) n

  abbrev pub Served : Machine → Response × Machine → Type 0
  Served m r = After m r × KeepsAll m r

  pub Quiet-Served :
      (m : Machine) (r : Response × Machine) → Quiet (rows_of m) (rows_of r.1) → Served m r
  Quiet-Served m r h = (h.0, λ n f. peers-Keeps (rows_of m) (rows_of r.1) n h.1 f)

  pub Apart-Served :
      (m : Machine) (r : Response × Machine) → Apart r.1.db m.db → Indexed m.db → Served m r
  Apart-Served m r h w = Quiet-Served m r (Apart-Quiet (rows_of m) (rows_of r.1) h w)

  pub unchanged-Served :
      (m : Machine) (r : Response × Machine) → r.1.db ≡ m.db → Indexed m.db → Served m r
  unchanged-Served m r h w = Apart-Served m r (rw h ((refl, refl, refl, refl), refl)) w

  -- Without a node the handler does not run.
  pub need_node-After :
      (f : Identity → Machine → Response × Machine) (m : Machine)
      → Indexed m.db
      → ((id : Identity) → After m (f id m))
      → After m (need_node f m)
  need_node-After f m w h = elim (Option-cases m.app.node) [
    | inl e ↦ ground (arith, w)
    | inr (id, e) ↦ ground (arith, h id)
  ]

  pub need_node-Served :
      (f : Identity → Machine → Response × Machine) (m : Machine)
      → Indexed m.db
      → ((id : Identity) → Served m (f id m))
      → Served m (need_node f m)
  need_node-Served f m w h =
      (need_node-After f m w (λ id. (h id).0), λ n p. kept n p (Option-cases m.app.node))
    where
      kept :
          (n : Text)
          → Filed m.db
          → (m.app.node ≡ none) ⊎ ((id : Identity) × (m.app.node ≡ some id))
          → Keeps (rows_of m) (rows_of (need_node f m).1) n
      kept n p (inl e) = peers-Keeps (rows_of m) (rows_of (need_node f m).1) n (ground arith) p
      kept n p (inr (id, e)) =
          Keeps-then (rows_of m) (rows_of (f id m).1) (rows_of (need_node f m).1) n ((h id).1 n p)
            (peers-Keeps (rows_of (f id m).1) (rows_of (need_node f m).1) n (ground arith))
