-- ===== src/Store.antt =====
-- The durable store of src/sqlite_store.cpp.
pub mod Interface
pub mod Action
pub mod Sqlite
pub mod Transactions
pub mod Reads
pub mod SqlText
pub mod Schema
pub mod Durable
