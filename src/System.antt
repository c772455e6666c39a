-- ===== src/System.antt =====
-- The running program: one store under the API of internal/api, the sessions of internal/node and
-- its loops. An act is what one of them does at a time; each takes from outside what it reads, draws
-- or waits for. Stop, and what is printed or logged, is left out.
pub mod Kept
pub mod Pins
use chirp.Prelude.{
  ℕ, Bool, true, false, ◌==◌, List, [], ◌∷◌, Text, text_eq, Option, none, some, Result, ok, err,
  if◌then◌else◌,
}
use chirp.Prelude.Int.{ℤ}
use chirp.Crypto.Aead.{Aead}
use chirp.Identity.Backup.{Kit}
use chirp.Identity.Fingerprint.{Sha256}
use chirp.Proto.Envelope.{Envelope}
use chirp.Store.Bolt.{Bolt}
use chirp.Store.Casing.{Casing}
use chirp.Store.Rows.{Peer, Store}
use chirp.Store.Meta.{Kdf, Identity, settings}
use chirp.Node.Sessions.{Remote, DialError, Table, register, unregister, establish}
use chirp.Node.Outbox.{Timing, flush, flush_file, retain}
use chirp.Node.Ticks.{Tick, outbox_tick}
use chirp.Node.Link.{Turn, Link, Out, new_link, receive}
use chirp.Api.{Request}
use chirp.Api.Server.{Machine, World, rows_of, vault_of, opened_of, with_rows, with_vault}
use chirp.Api.Routes.{Call, respond}

pub data Act : Type 0 where
  asked : Request → World → Call → Act
  met : Text → ℕ → Text → Option Remote → ℕ → Act
  started : ℕ → Text → List Text → Act
  heard : ℕ → Turn → Option Envelope → Act
  ended : ℕ → Text → Act
  flushed : Timing → Text → Act
  ticked : Tick → Act
  file_flushed : ℕ → Text → Bool → Option ℤ → Act
  retained : (ℤ → ℕ) → Act

-- The links that have been started, by number. The store that a link works on is the machine's.
pub record System ⦃bolt : Bolt⦄ : Type 0 where
  pub machine : Machine
  pub links : ℕ → Option Link

module _ ⦃bolt : Bolt⦄ where
  -- Only a node that has been started accepts, reads and sends.
  abbrev pub with_node : (Identity → Machine → Machine) → Machine → Machine
  with_node f m = elim m.app.node [ none ↦ m | some id ↦ f id m ]

  abbrev pub over_store : Link → Machine → Link
  over_store l m = record l { session = record (l.session) { vault = vault_of m } }

  unfoldable pub set_link : ℕ → Link → System → System
  set_link k l s = record s { links = λ j. if k == j then some l else s.links j }

  unfoldable pub with_machine : Machine → System → System
  with_machine m s = record s { machine = m }

  -- What the loop of link k leaves behind.
  unfoldable pub after_turn : ℕ → List Out × Link → System → System
  unfolding set_link with_machine
  after_turn k (out, l) s = set_link k l (with_machine (with_vault l.session.vault s.machine) s)

  module _ ⦃casing : Casing⦄ where
    -- runSession of a link that establish has put into the table; its forced flush is an act of its
    -- own.
    unfoldable pub start_link : ℕ → Text → List Text → System → System
    unfolding set_link
    start_link k peer caps s = elim (s.machine.table.begun k) [
      | none ↦ s
      | some key ↦ elim (s.links k) [
        | some l ↦ s
        | none ↦
            if text_eq key (casing.to_lower peer)
            then set_link k (new_link peer caps (vault_of s.machine)) s
            else s
      ]
    ]

    -- runSession once the loop of the link has returned.
    unfoldable pub end_link : ℕ → Text → Machine → Machine
    end_link k peer m = record m { table = unregister (casing.to_lower peer) k m.table }

    abbrev pub meeting : ℕ → Result DialError Peer × Store → Machine → Machine
    meeting k (err e, s) m = with_rows s m
    meeting k (ok p, s) m = record (with_rows s m) {
      table = register (casing.to_lower p.name) k m.table;
    }

    module _ ⦃a : Aead⦄ where
      -- A link that is not started, or is down, reads nothing.
      unfoldable pub hear : ⦃sha : Sha256⦄ → ℕ → Turn → Option Envelope → System → System
      unfolding after_turn
      hear k t e s = elim (s.links k) [
        | none ↦ s
        | some l ↦ if l.session.up then after_turn k (receive t e (over_store l s.machine)) s else s
      ]

      -- flush sends over the live session of the name only.
      unfoldable pub flush_to : Timing → Text → Machine → Machine
      flush_to t peer m = elim (m.table.live (casing.to_lower peer)) [
        | none ↦ m
        | some l ↦ with_rows (flush t peer (rows_of m)).store m
      ]

      module _ ⦃sha : Sha256⦄ where
        unfoldable pub node_act : Act → Identity → Machine → Machine
        node_act (met nonce now want r k) id m =
            meeting k (establish nonce now id.public want r (rows_of m)) m
        node_act (ended k peer) id m = end_link k peer m
        node_act (flushed t peer) id m = flush_to t peer m
        node_act (ticked t) id m = with_rows (outbox_tick t id.name (rows_of m)) m
        node_act (file_flushed n file resumes answer) id m =
            with_vault (flush_file n file resumes answer (vault_of m)).vault m
        node_act (retained cutoff) id m = record m {
          db = retain cutoff (settings (opened_of m)) m.db;
        }
        node_act _ id m = m

        unfoldable pub act : ⦃kdf : Kdf⦄ ⦃kit : Kit⦄ → (Text → Option Text) → Act → System → System
        unfolding with_machine
        act url_host (asked r w c) s = with_machine (respond url_host r w c s.machine).1 s
        act url_host (heard k t e) s = hear k t e s
        act url_host (started k peer caps) s = start_link k peer caps s
        act url_host x s = with_machine (with_node (node_act x) s.machine) s

        unfoldable pub act_each :
            ⦃kdf : Kdf⦄ ⦃kit : Kit⦄ → (Text → Option Text) → List Act → System → System
        act_each url_host [] s = s
        act_each url_host (x ∷ l) s = act_each url_host l (act url_host x s)
