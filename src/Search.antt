-- ===== src/Search.antt =====
-- src/search.rs: the escapes of what a user searches for. Text is a list of code points.
pub mod Like
pub mod Fts
pub mod Full
pub mod Talks
pub mod Tests
