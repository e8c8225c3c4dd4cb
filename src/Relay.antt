-- ===== src/Relay.antt =====
-- internal/relay/relay.go: one connection's relay between the gateway and the local model.
pub mod Options
pub mod Execute
pub mod Machine
mod Tests
