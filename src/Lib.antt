-- ===== src/Lib.antt =====
-- chirp is a messenger for a local network without a server: each node keeps its contacts,
-- messages, rooms and files in one database file, and talks to other nodes over authenticated
-- sessions. This library models its protocol, its store and what a node does with what peers send
-- it.
--
-- The parts, bottom up:
-- - Prelude: lists, byte strings (Go's strings are lists of bytes over ℕ), results and integers,
--   shared by all.
-- - Bytes: unicode/utf8, encoding/hex, encoding/base64 and parts of strings and net of Go's
--   standard library, as far as the program calls them.
-- - Crypto: internal/crypto/crypto.go. Sealed has Encrypt, Decrypt and IsEncrypted over Aead,
--   which stands for ChaCha20-Poly1305 with its documented laws. The nonce is an argument.
-- - Identity: internal/identity. Fingerprint over Sha256, which stands for crypto/sha256; Names
--   has ValidateName and PassphraseStrength, Backup has ExportBackup and ImportBackup over a Kit
--   that stands for scrypt, the cipher, JSON and the key pairs.
-- - Proto: internal/proto/proto.go. Frame has WriteFrame and ReadFrame over a stream given by its
--   bytes, Envelope has Envelope.validate with one function for each case, and Validate says what
--   it accepts.
-- - Session: internal/session/session.go. Handshake has the three messages at the dialer and at
--   the listener, over Xx, which stands for the handshake state of github.com/flynn/noise;
--   Session what a hello is taken for, Send and Recv, with Encode and Decode, over Noise and
--   Json, which stand for its cipher states and encoding/json.
-- - Store: internal/store. Bolt stands for go.etcd.io/bbolt and Casing for the Unicode tables
--   behind strings.ToLower and strings.EqualFold. Rows has the structs and the buckets, Seals the
--   encrypted values. Peers, Messages and Rooms are the parts of store.go, Files is files.go with
--   the bytes on disk. Meta has the identity record, the settings, and the ways of opening a
--   database with and without a passphrase, over Kdf, which stands for the key derivations of
--   crypto.go; Reads has the lists and Search. Each has child modules with its laws. A
--   transaction that fails leaves the buckets as they were; where the code commits and fails
--   afterwards, the model returns the error with the changed store.
-- - Node: internal/node. Transfer has the chunk loop of flushFile (node.go) and the file cases of
--   readLoop (link.go); Members and Rooms have the member lists and the handlers of rooms.go,
--   OwnRooms what the user does to a room, RoomPosts what the user says in it. Link has readLoop
--   with all its cases; Dialing who is dialled and when (node.go), and fpMatches; Sessions what
--   establish refuses and the table of live sessions; Outbox SendReply, flush, SendFile,
--   flushFile and retentionLoop; Ticks outboxLoop; Invite is invite.go; Views has the signals and
--   the rename of views.go, Roster its Me and Peers (Peers in an order that sort.Slice may give),
--   RoomViews the views of rooms.go; Events the channels of subscribers and the log (events.go),
--   OwnInvite is qr.go, and Announcing what Start, Rename and Stop announce. The calls of logf
--   are left out of the operations, and so are those of emit, save those of readLoop itself.
-- - Discovery: internal/discovery. Entries has the text records of mdns.go, Memory the hub of
--   memory.go.
-- - App: internal/app/app.go. An App is its database file, the keys of the open store, openErr,
--   the identity of the running node and the passphrase of its Config; Open, Unlock, Setup,
--   Restore, EnablePassphrase, Backup and Replace are functions on it.
-- - Api: internal/api/api.go. The checks before the handlers (secure, isFileUpload) stand in Api,
--   the state that the handlers share in Server, the answers in Answers, and the handlers in
--   Account, Chats, RoomCalls and FileCalls; Routes has the patterns of New, a call with its
--   decoded path, query and body. net/url, what a request draws (random bytes, the time) and what
--   the network does are arguments.
-- - System: the whole program as acts on one store: requests to the API, sessions that come up,
--   read and end, the tick of outboxLoop (Node.Ticks), forced flushes, files that are sent, and
--   retention.
-- - Examples: concrete runs, with small functions for the packages that the program only calls.
--
-- How the parts interact: Api answers a request by calls of Node, Store and App; Link takes each
-- validated envelope from a session and hands it to a handler of Node, which calls the Store, and
-- answers; Outbox and RoomPosts take what waits in the Store and send it; the Store seals values
-- through Crypto and finds rows through Bolt. A file goes from the chunk loop through WriteChunk
-- to CompleteFile, which checks the hash.
--
-- Bounds: lengths, offsets and times are natural numbers; int64 fields of an envelope are
-- integers until validate has checked them. Sequence numbers wrap at 2 ^ 64 as written out, and
-- the theorems on keys ask that they stay below. The chunk loop runs on fuel, and the file's
-- length is enough, since each turn moves at least one byte. Durations are nanoseconds in int64,
-- and the products of the back-off wrap at 2 ^ 64.
--
-- Not modelled: JSON, sockets, multicast, main functions, the front end, faults of the disk, and
-- goroutine interleavings within one handler or one tick; of the API the stream of events, the
-- request for the own invite, the diagnostics and the static files; the words and icons that
-- stand for a key; pingLoop, which only sends pings. Key derivation is only called by the
-- program.
pub mod Prelude
pub mod Bytes
pub mod Crypto
pub mod Identity
pub mod Proto
pub mod Session
pub mod Store
pub mod Discovery
pub mod Node
pub mod App
pub mod Api
pub mod System
pub mod Examples
