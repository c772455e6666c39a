-- ===== src/Examples/Wire.antt =====
-- Frames, envelopes and sealed values.
use chirp.Proto.Envelope.{Envelope, MsgType}
use chirp.Node.Transfer.{bare}
use chirp.Examples.Setup.{tag_aead, sum_sha}

abbrev a_ping : Envelope
a_ping = record (bare MsgType.ping) { seq = 0 }
