-- ===== src/Reader.antt =====
-- src/reader.rs: the reader of session files. The adapter that parses a file is a parameter.
pub mod Pages
pub mod Preview
pub mod Sessions
pub mod Projects
pub mod Shown
pub mod Metrics
pub mod Tests
