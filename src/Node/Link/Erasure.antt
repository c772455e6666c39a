-- ===== src/Node/Link/Erasure.antt =====
-- What a peer's `del` and `delall` remove: readLoop of internal/node/link.go.
use chirp.Crypto.Aead.{Aead}
use chirp.Proto.Envelope.{Envelope}
use chirp.Store.Bolt.{Bolt}
use chirp.Store.Casing.{Casing}
use chirp.Store.Messages.Indexed.{Indexed}
use chirp.Node.Link.{Link}
