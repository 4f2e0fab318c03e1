-- ===== src/Ledger.antt =====
-- server.go `applyEvent` and what it calls, over the tables of database.go, with what they keep true.
pub mod Db
pub mod Runtime
pub mod Apply
pub mod Exact
pub mod Replay
pub mod Balance
pub mod Watermark
pub mod Rows
pub mod Bounds
pub mod Evidence
