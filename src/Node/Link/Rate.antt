-- ===== src/Node/Link/Rate.antt =====
-- The rate limit of readLoop in internal/node/link.go.
use chirp.Prelude.{
  ℕ, suc, ◌+◌, ◌≤◌, ◌≡◌, Bool, true, List, [], ◌∷◌, Option, none, some, ltb, All, arith, Bool-cases,
  inl, inr,
}
use chirp.Crypto.Aead.{Aead}
use chirp.Identity.Fingerprint.{Sha256}
use chirp.Proto.Envelope.{Envelope}
use chirp.Store.Bolt.{Bolt}
use chirp.Store.Casing.{Casing}
use chirp.Store.Rows.{Message}
use chirp.Store.Errors.{Res}
use chirp.Store.Messages.{add_message}
use chirp.Node.Link.{
  Out, Turn, Link, max_msg_per_sec, second, inbound_message, store_of, with_store, closed,
  window_over, count_msg, acked, on_msg, receive, read_loop,
}
use chirp.Node.Link.Acks.{
  count_acks, count_acks-append, count-acked, is_msg, dispatch-other, dispatch-is_msg,
}

module _ ⦃bolt : Bolt⦄ ⦃casing : Casing⦄ ⦃a : Aead⦄ ⦃sha : Sha256⦄ where
  -- What one turn does to the window.
  abbrev Window : ℕ → ℕ → List Out × Link → Type 0
  Window start count o =
      (count_acks o.0 + count ≤ max_msg_per_sec)
      × (o.1.rate_start ≡ some start)
      × (o.1.session.up ≡ true
          → (count_acks o.0 + count ≤ o.1.msg_count) × (o.1.msg_count ≤ max_msg_per_sec))

  acked-up :
      (t : Turn) (e : Envelope) (r : Res (Option Message × Bool)) (l : Link)
      → ((acked t e r l).1.rate_start ≡ l.rate_start) × ((acked t e r l).1.msg_count ≡ l.msg_count)
  unfolding acked closed
  acked-up t e r l = ground arith

  count_msg-within :
      (now : ℕ) (l : Link) (start : ℕ)
      → l.rate_start ≡ some start
      → now ≤ start + second
      → count_msg now l ≡ record l { msg_count = suc l.msg_count }
  unfolding count_msg window_over
  count_msg-within now l start s h = rw s (ground arith)

  on_msg-Window :
      (t : Turn) (e : Envelope) (l : Link) (start : ℕ)
      → l.rate_start ≡ some start
      → l.msg_count ≤ max_msg_per_sec
      → t.now ≤ start + second
      → Window start l.msg_count (on_msg t e l)
  unfolding on_msg closed with_store
  on_msg-Window t e l start s c h =
      let r = add_message t.nonce (inbound_message l.session.peer t.now e) (store_of l) in
      let counted : Link = record l { msg_count = suc l.msg_count } in
      rw (count_msg-within t.now l start s h)
        (elim (Bool-cases (ltb max_msg_per_sec (suc l.msg_count))) [
          | inl over ↦ rw over (ground arith)
          | inr under ↦ rw under (
              ground (
                arith,
                count-acked t e r.0 (with_store r.1 counted),
                acked-up t e r.0 (with_store r.1 counted),
              ))
        ])

  receive-Window :
      (t : Turn) (r : Option Envelope) (l : Link) (start : ℕ)
      → l.rate_start ≡ some start
      → l.msg_count ≤ max_msg_per_sec
      → t.now ≤ start + second
      → Window start l.msg_count (receive t r l)
  unfolding receive
  receive-Window t none l start s c h = unfold closed in ground arith
  receive-Window t (some e) l start s c h = elim (Bool-cases (is_msg e.t)) [
    | inl msg ↦ rw (dispatch-is_msg e.t t e l msg) (on_msg-Window t e l start s c h)
    | inr other ↦ ground (arith, dispatch-other e.t t e l other)
  ]

  -- Within a second of the start of a rate window, the messages that a session acknowledges and
  -- those that it has counted before are together at most a hundred.
  pub read_loop-rate :
      (start : ℕ) (inputs : List (Turn × Option Envelope)) (l : Link)
      → l.rate_start ≡ some start
      → l.msg_count ≤ max_msg_per_sec
      → All (λ (x : Turn × Option Envelope). x.0.now ≤ start + second) inputs
      → count_acks (read_loop inputs l).0 + l.msg_count ≤ max_msg_per_sec
  unfolding read_loop
  read_loop-rate start [] l s c h = omega (arith, c)
  read_loop-rate start ((t, r) ∷ rest) l s c h =
      let o = receive t r l in
      let w = receive-Window t r l start s c h.0 in
      elim (Bool-cases o.1.session.up) [
        | inl up ↦
            let w' = w.2 up in
            rw up (
              omega (
                arith,
                count_acks-append o.0 (read_loop rest o.1).0,
                read_loop-rate start rest o.1 w.1 w'.1 h.1,
                w'.0,
              ))
        | inr down ↦ rw down w.0
      ]
