-- ===== src/WsClient.antt =====
-- internal/wsclient/wsclient.go: the WebSocket client's handshake, frames and messages.
pub mod Reader
pub mod Frame
pub mod Conn
pub mod Handshake
pub mod Dial
mod Tests
mod DialTests
