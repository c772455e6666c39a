-- ===== src/Proto.antt =====
-- internal/proto/proto.go: frames, envelopes and their validation, the hello payload.
pub mod Frame
pub mod FrameLaws
pub mod Envelope
