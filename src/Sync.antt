-- ===== src/Sync.antt =====
-- internal/sync: what one pass of the server-to-server sync changes, and its log.
pub mod Reconcile
pub mod Logs
pub mod Manager
mod Tests
