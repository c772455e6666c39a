-- ===== src/System/Kept.antt =====
-- What the program does to messages and to pinned keys, act by act: rows, index and outbox stay
-- together.
use chirp.Prelude.{
  none, some, refl, ℕ, suc, ◌<◌, ◌≡◌, List, Text, Option, Result, ok, err, arith, Option-cases,
  Bool-cases, inl, inr,
}
use chirp.Crypto.Aead.{Aead}
use chirp.Identity.Backup.{Kit}
use chirp.Identity.Fingerprint.{Sha256}
use chirp.Proto.Envelope.{Envelope}
use chirp.Store.Bolt.{Bolt}
use chirp.Store.Casing.{Casing}
use chirp.Store.Rows.{Peer, Store}
use chirp.Store.Meta.{Kdf, Identity, settings}
use chirp.Store.Messages.Indexed.{Indexed}
use chirp.Store.Messages.Mail.{Next, Quiet, same-Next, Apart-Quiet}
use chirp.Store.Peers.Pins.{Filed}
use chirp.Store.Peers.History.{Keeps, peers-Keeps, Keeps-then}
use chirp.Node.Sessions.{Remote, DialError, establish}
use chirp.Node.Outbox.{Timing, flush_file}
use chirp.Node.Outbox.Mail.{
  flush-Flushes, retain-Quiet, establish-SameMail, establish-Keeps, flush_file-Apart,
}
use chirp.Node.Ticks.Flushed.{outbox_tick-Flushes}
use chirp.Node.Link.{Turn}
use chirp.Node.Link.Mail.{receive-Quiet}
use chirp.Api.Server.{Machine, rows_of, vault_of, opened_of}
use chirp.Api.Routes.Served.{Spares, respond-Served}
use chirp.System.{
  Act, asked, met, started, heard, ended, flushed, ticked, file_flushed, retained, System,
  with_node, over_store, set_link, with_machine, after_turn, start_link, end_link, meeting, hear,
  flush_to, node_act, act,
}

module _ ⦃bolt : Bolt⦄ ⦃casing : Casing⦄ where
  abbrev pub Moves : Machine → Machine → Type 0
  Moves m n = Next (rows_of m) (rows_of n)

  start_link-machine :
      (k : ℕ) (peer : Text) (caps : List Text) (s : System)
      → (start_link k peer caps s).machine ≡ s.machine
  unfolding start_link set_link
  start_link-machine k peer caps s = ground arith

  meeting-db :
      (k : ℕ) (r : Result DialError Peer × Store) (m : Machine) → (meeting k r m).db ≡ r.1.db
  meeting-db k (err e, s) m = refl
  meeting-db k (ok p, s) m = refl

  module _ ⦃a : Aead⦄ where
    flush_to-Quiet :
        (t : Timing) (peer : Text) (m : Machine)
        → Indexed m.db
        → Quiet (rows_of m) (rows_of (flush_to t peer m))
    unfolding flush_to
    flush_to-Quiet t peer m w = elim (Option-cases (m.table.live (casing.to_lower peer))) [
      | inl e ↦ ground (arith, w)
      | inr (l, e) ↦ ground (arith, flush-Flushes t peer (rows_of m) w)
    ]

    module _ ⦃sha : Sha256⦄ where
      -- Messages move on, and every pin stays.
      abbrev pub Both : Machine → Machine → Type 0
      Both m n = Moves m n × ((name : Text) → Filed m.db → Keeps (rows_of m) (rows_of n) name)

      Quiet-Both : (m n : Machine) → Quiet (rows_of m) (rows_of n) → Both m n
      Quiet-Both m n h = (h.0, λ name f. peers-Keeps (rows_of m) (rows_of n) name h.1 f)

      still : (m : Machine) → Indexed m.db → Both m m
      still m w = Quiet-Both m m (ground (arith, w))

      hear-Quiet :
          (k : ℕ) (t : Turn) (e : Option Envelope) (s : System)
          → Indexed s.machine.db
          → suc s.machine.db.msgs_seq < 18446744073709551616
          → Quiet (rows_of s.machine) (rows_of (hear k t e s).machine)
      unfolding hear after_turn set_link with_machine
      hear-Quiet k t e s w b = elim (Option-cases (s.links k)) [
        | inl n ↦ ground (arith, w)
        | inr (l, n) ↦ elim (Bool-cases l.session.up) [
          | inr d ↦ ground (arith, w)
          | inl u ↦ ground (arith, receive-Quiet t e (over_store l s.machine) w b)
        ]
      ]

      met-Both :
          (k : ℕ) (nonce : Text) (now : ℕ) (mine want : Text) (r : Option Remote) (m : Machine)
          → Indexed m.db
          → Both m (meeting k (establish nonce now mine want r (rows_of m)) m)
      met-Both k nonce now mine want r m w =
          let found = establish nonce now mine want r (rows_of m) in
          let same = meeting-db k found m in
          (
            same-Next (rows_of m) (rows_of (meeting k found m))
                (ground (arith, establish-SameMail nonce now mine want r (rows_of m))) w,
            λ name f.
                Keeps-then (rows_of m) found.1 (rows_of (meeting k found m)) name
                  (establish-Keeps nonce now mine want r (rows_of m) name f)
                  (peers-Keeps found.1 (rows_of (meeting k found m)) name (ground arith)),
          )

      node_act-Both :
          (x : Act) (id : Identity) (m : Machine) → Indexed m.db → Both m (node_act x id m)
      unfolding node_act end_link
      node_act-Both (met nonce now want r k) id m w = met-Both k nonce now id.public want r m w
      node_act-Both (ended k peer) id m w = Quiet-Both m (end_link k peer m) (ground (arith, w))
      node_act-Both (flushed t peer) id m w =
          Quiet-Both m (flush_to t peer m) (flush_to-Quiet t peer m w)
      node_act-Both (ticked t) id m w =
          Quiet-Both m (node_act (ticked t) id m)
            (ground (arith, outbox_tick-Flushes t id.name (rows_of m) w))
      node_act-Both (file_flushed n file resumes answer) id m w =
          Quiet-Both m (node_act (file_flushed n file resumes answer) id m) (
            Apart-Quiet (rows_of m) (flush_file n file resumes answer (vault_of m)).vault.store
              (flush_file-Apart n file resumes answer (vault_of m)) w)
      node_act-Both (retained cutoff) id m w =
          Quiet-Both m (node_act (retained cutoff) id m)
            (retain-Quiet cutoff (settings (opened_of m)) (rows_of m) w)
      node_act-Both (asked _ _ _) id m w = still m w
      node_act-Both (started _ _ _) id m w = still m w
      node_act-Both (heard _ _ _) id m w = still m w

      with_node-Both : (x : Act) (m : Machine) → Indexed m.db → Both m (with_node (node_act x) m)
      with_node-Both x m w = running m.app.node refl
        where
          running :
              (o : Option Identity)
              → m.app.node ≡ o
              → Both m (elim o [ none ↦ m | some id ↦ node_act x id m ])
          running none e = still m w
          running (some id) e = node_act-Both x id m w

      module _ ⦃kdf : Kdf⦄ ⦃kit : Kit⦄ where
        -- The acts but those requests that accept a new key or forget a peer.
        abbrev pub Spared : Act → Type 0
        Spared (asked r w c) = Spares c
        Spared _ = Unit {0}

        pub act-Both :
            (url_host : Text → Option Text) (x : Act) (s : System)
            → Spared x
            → Indexed s.machine.db
            → suc s.machine.db.msgs_seq < 18446744073709551616
            → Both s.machine (act url_host x s).machine
        unfolding act with_machine
        act-Both url_host (asked r w c) s p i b = respond-Served url_host r w c p s.machine i b
        act-Both url_host (heard k t e) s p i b =
            Quiet-Both s.machine (hear k t e s).machine (hear-Quiet k t e s i b)
        act-Both url_host (started k peer caps) s p i b =
            rw (start_link-machine k peer caps s) (still s.machine i)
        act-Both url_host (met nonce now want r k) s p i b =
            with_node-Both (met nonce now want r k) s.machine i
        act-Both url_host (ended k peer) s p i b = with_node-Both (ended k peer) s.machine i
        act-Both url_host (flushed t peer) s p i b = with_node-Both (flushed t peer) s.machine i
        act-Both url_host (ticked t) s p i b = with_node-Both (ticked t) s.machine i
        act-Both url_host (file_flushed n file resumes answer) s p i b =
            with_node-Both (file_flushed n file resumes answer) s.machine i
        act-Both url_host (retained cutoff) s p i b = with_node-Both (retained cutoff) s.machine i
