-- ===== src/Config.antt =====
-- internal/config/store.go: the pairing and the runtime status on disk. The file system is a
-- state that the store's operations pass on, and the keyring an interface.
pub mod FileSystem
pub mod Path
pub mod Store
pub mod SecretTool
mod Tests
