-- ===== src/App.antt =====
-- internal/app: the commands, the reconnect loop of `run` with its backoff, and what it reports.
pub mod SafeError
pub mod Loop
pub mod Machine
pub mod Pair
pub mod Unpair
pub mod Inspect
pub mod Start
pub mod Dispatch
mod Example
mod CommandTests
mod ResumedTests
mod Tests
