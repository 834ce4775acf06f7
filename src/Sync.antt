-- ===== src/Sync.antt =====
-- src/sync: the incremental push of the local database to a server.
pub mod Batch
pub mod Cursors
pub mod Filter
pub mod Collect
pub mod Client
pub mod Worker
pub mod Tests
