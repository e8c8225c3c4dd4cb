-- ===== src/LocalApi.antt =====
-- internal/localapi/client.go: the client of the local model API. Name resolution, dialing and HTTP
-- are parameters.
pub mod Loopback
pub mod Forward
pub mod Address
mod Tests
