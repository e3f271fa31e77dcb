-- ===== src/Store.antt =====
-- internal/store: the read caches, the tables behind them, and the operations on both.
pub mod Cache
pub mod Database
pub mod State
pub mod Maps
pub mod Grants
pub mod Aliases
pub mod ApiKeys
pub mod StringArray
pub mod RefreshTokens
pub mod Accounts
pub mod Membership
pub mod Reads
mod Tests
