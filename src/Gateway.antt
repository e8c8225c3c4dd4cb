-- ===== src/Gateway.antt =====
-- internal/gateway/client.go: enrollment and revocation. URLs are parsed and HTTP requests answered
-- by parameters; what is sent is kept as a list.
pub mod Identity
pub mod Client
mod Tests
