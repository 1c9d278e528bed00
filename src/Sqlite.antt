-- ===== src/Sqlite.antt =====
-- storage/sqlite/*.go: the store in SQLite.
pub mod Vec
pub mod Tables
pub mod Scope
pub mod Edge
pub mod Entry
pub mod Labels
pub mod Fts
pub mod Search
pub mod Session
pub mod Tx
pub mod Migrate
pub mod Consistent
pub mod Reachable
pub mod Repos
pub mod Examples
