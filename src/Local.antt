-- ===== src/Local.antt =====
-- store/local.py: `LocalBackend`, the filesystem backend with an append-only journal.
pub mod Reader
pub mod Journal
pub mod Replay
pub mod Torn
pub mod State
pub mod Write
pub mod Recovery
pub mod Commit
pub mod Safety
pub mod Durable
pub mod Backend
pub mod Ends
pub mod Waits
