-- ===== src/Lib.antt =====
-- A model of ai-cli-session-db, the store of AI command-line sessions, with the push of its rows to a
-- server, and the theorems that make it correct.
--
-- The program. A collector and a background agent write sessions, messages, summaries and the chains
-- of continued sessions into an SQLite database (src/db.rs, src/schema.rs). A push reads that
-- database, read-only, filters each batch by an allow list of projects and by sensitive words, sends
-- it to a server and keeps its progress in a second database, sync.db (src/sync). A reader shows
-- session files in pages and previews (src/reader.rs); searches are escaped for SQLite
-- (src/search.rs).
--
-- Which file models what.
--   Db (src/db.rs, src/schema.rs, src/types.rs): the tables as lists of rows in rowid order; a SQL
--     statement is one list operation. Db/Messages: insert_messages and the reads of a session.
--     Db/Chains: insert_continuation and get_continuation_chain. Db/Index: the vector-index queue.
--     Db/Projects: get_or_create_project. Db/Approvals: the approval state of messages.
--     Db/Sessions: the creation and update of session rows. Db/Listing: the lists of projects and
--     sessions, and the lookup by a part of an identifier. Db/Talks: the summaries. Db/Views: a
--     session with its project and neighbours, in a page and alone. Db/Dedup: the projects of one
--     path are merged.
--   Collector (src/collector.rs): how the messages of one parsed session are cut off, numbered and
--     stored, in collect_all and in collect_by_path. Collector/Path: what collect_by_path writes for
--     one parsed file. Collector/Walk: the scan of collect_all.
--   Sync/Batch (src/sync/mod.rs): what a push carries. Sync/Cursors (src/sync/db.rs): sync.db.
--     Sync/Filter (src/sync/filter.rs): both filters. Sync/Collect and Sync/Client
--     (src/sync/client.rs): the reads, then sync_session with its loop, sync_single_session and
--     sync_once, and in Sync/Client/Ws their variants over the stream. Sync/Worker
--     (src/sync/worker.rs): the paused flag and the reconnect delay, and the loops: over HTTP in
--     Sync/Worker/Http, over the stream in Sync/Worker/Stream, the fallback in Sync/Worker/Fallback and
--     around them run_main_loop in Sync/Worker/Main.
--   Agent/Connections (src/agent/broadcaster.rs): the connection manager. Agent/Idle
--     (src/agent/server.rs): idle_checker. Agent/Handler (src/agent/handler.rs, src/protocol.rs,
--     trigger_collect of src/agent/watcher.rs): the requests and their answers, which call the
--     operations of Db, Collector/Path, Sync/Worker and Agent/Connections.
--   Reader/Pages, Reader/Preview (src/reader.rs): pages of a session, and previews, with
--     truncate_preview of src/db.rs. Reader/Sessions: the list of sessions and the latest one.
--     Reader/Shown: that list with the last message of each. Reader/Projects: the directories of
--     projects and the cache of their names. Reader/Metrics: calculate_metrics.
--   Search (src/search.rs): the escapes of LIKE and FTS5, and in Search/Full and Search/Talks the
--     searches.
--   Prelude: Boolean tests, lists, ordering, and the text functions of the standard library.
--   The Tests modules apply the theorems to concrete inputs.
--
-- How the code is read. Stateful code passes its state: SessionDb for the main database, SyncDb for
-- sync.db, Run for sync.db with the requests that went out. An error is `none`. Identifiers are
-- native strings, which are only compared; texts that are searched or rewritten are lists of code
-- points. Times, counts and sequences are natural numbers, for the program never stores a negative
-- one. The clock and fresh identifiers are arguments.
--
-- Parameters. The server is a function of the requests so far, whose `none` is a request that fails;
-- the glob sets (globset) and the word automaton (aho_corasick) are their queries; the adapter that
-- parses a session file is its result. For the agent the file system and the adapters are the record
-- `Files`, for the scan the list of its adapters, for the reader the sessions that the adapter lists
-- and parses and the directories with their files. A channel of the agent is its tests; the FTS5
-- index gives the rows that match; the WebSocket stream is a function of the frames so far. What
-- select! yields to an event loop is a list of events. Nothing is assumed of them but what a theorem
-- states.
--
-- Fuel. The loops of sync_session and sync_session_ws run on fuel, one unit for each iteration.
-- Every iteration that asks for another one moves the cursor past a message, so that one unit more
-- than the session has messages is enough.
--
-- Not modelled: the C interface (src/ffi.rs), the agent's processes and sockets (src/client, the
-- accept loop of src/agent/server.rs), the framing of the stream (src/sync/stream.rs), migrations and
-- repair, the choice of the writer and the configuration, the registration of a device, and the
-- ranking of FTS5.
pub mod Prelude
pub mod Db
pub mod Sync
pub mod Agent
pub mod Reader
pub mod Search
pub mod Collector
