-- ===== src/Protocol.antt =====
-- internal/protocol/protocol.go: the messages of the companion protocol and their validation.
-- JSON decoding is a parameter, the record `Json`; a Go string or byte slice is a list of bytes.
pub mod Id
pub mod Message
pub mod Validate
mod Tests
