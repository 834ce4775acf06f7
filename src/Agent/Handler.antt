-- ===== src/Agent/Handler.antt =====
-- src/agent/handler.rs with src/protocol.rs, and trigger_collect of src/agent/watcher.rs: the
-- requests of the clients. The file system and the adapters that parse a session file are the
-- parameter `files`; the triggers that the sync worker has not read yet are a list.
pub mod Promise
pub mod Refines
pub mod Collected
pub mod Sound
use ai_cli_session_db.Prelude.{
  ℕ, String, Text, List, [], ◌∷◌, ◌++◌, Option, none, some, Bool, true, false, if◌then◌else◌,
}
use ai_cli_session_db.Db.{SessionDb, ApprovalStatus}
use ai_cli_session_db.Db.Index.{mark_messages_indexed}
use ai_cli_session_db.Db.Talks.{upsert_talk_summary}
use ai_cli_session_db.Db.Approvals.{update_approval_status_by_tool_call_id}
use ai_cli_session_db.Db.Sessions.{IncrementalState, get_session_incremental_state}
use ai_cli_session_db.Collector.Path.{ParsedFile, store_file}
use ai_cli_session_db.Sync.Cursors.{SyncDb}
use ai_cli_session_db.Sync.Worker.{SyncWorker, pause, resume}
use ai_cli_session_db.Agent.Connections.{ConnectionManager, connection_count}

-- What collect_by_path meets at a path: an error of the parser, nothing to store, or a file.
pub data FileRead : Type 0 where
  unreadable nothing : FileRead
  parsed : ParsedFile → FileRead

-- The reader gets the incremental states that are stored.
pub record Files : Type 0 where
  pub read : String → (String → Option IncrementalState) → FileRead
  pub exists : String → Bool
  pub file_stem : String → Option String

pub data QueryType : Type 0 where
  status connection_count_of sync_status : QueryType

-- The fields of a hook event that the handler reads.
pub record HookEvent : Type 0 where
  pub event_type : String
  pub session_id : String
  pub transcript_path : Option String

pub data Request : Type 0 where
  handshake : String → String → Request
  notify_file_change : String → Request
  write_index_result : String → List ℕ → Request
  write_compact_result : String → String → Text → Option Text → Request
  write_approve_result : String → ApprovalStatus → ℕ → Request
  heartbeat : Request
  query : QueryType → Request
  hook_event : HookEvent → Request
  sync_pause sync_resume : Request

-- An error has its code and the first words of its text. The answers of queries are their numbers.
pub data Response : Type 0 where
  ok handshake_ok : Response
  error : ℕ → String → Response
  status_is count_is : ℕ → Response
  sync_is : Bool → Bool → Response

pub record Handler : Type 0 where
  pub db : SessionDb
  pub connections : ConnectionManager ℕ
  pub sync_worker : SyncWorker
  pub sync_db : SyncDb
  pub triggers : List String

-- `SyncWorker::trigger_session`: the channel of a worker that does not run is closed.
unfoldable pub trigger_session : String → Handler → Handler
trigger_session id h =
    if h.sync_worker.running then record h { triggers = h.triggers ++ id ∷ [] } else h

-- `trigger_collect`; the flag is that it succeeded. Errors of single writes are in its result.
unfoldable pub trigger_collect : Files → String → ℕ → SessionDb → SessionDb × Bool
trigger_collect files path now db =
    elim (files.read path (λ id. get_session_incremental_state id db)) [
      | unreadable ↦ (db, false)
      | nothing ↦ (db, true)
      | parsed file ↦ elim (store_file file now db) [ none ↦ (db, true) | some db' ↦ (db', true) ]
    ]

unfoldable pub handle_file_change : Files → String → ℕ → Handler → Handler × Response
handle_file_change files path now h =
    let (db, succeeded) = trigger_collect files path now h.db in
    if succeeded
    then (
      elim (files.file_stem path) [
        | none ↦ record h { db = db }
        | some id ↦ trigger_session id (record h { db = db })
      ],
      ok,
    )
    else (record h { db = db }, error 500 "Collection failed")

-- The updates of this and of the approval never fail here; the source answers an error of SQLite, such
-- as too many ids for one statement, with a code of 500.
unfoldable pub handle_write_index_result : List ℕ → Handler → Handler × Response
handle_write_index_result ids h = (record h { db = (mark_messages_indexed ids h.db).0 }, ok)

unfoldable pub handle_write_compact_result :
    String → String → Text → Option Text → ℕ → Handler → Handler × Response
handle_write_compact_result session_id talk_id l2 l3 now h =
    elim (upsert_talk_summary session_id talk_id l2 l3 now h.db) [
      | none ↦ (h, error 500 "Failed to write compact result")
      | some db ↦ (record h { db = db }, ok)
    ]

unfoldable pub handle_write_approve_result :
    String → ApprovalStatus → ℕ → Handler → Handler × Response
handle_write_approve_result call verdict at h =
    (record h { db = (update_approval_status_by_tool_call_id call verdict at h.db).0 }, ok)

unfoldable pub handle_query : QueryType → Handler → Response
handle_query status h = status_is (connection_count h.connections)
handle_query connection_count_of h = count_is (connection_count h.connections)
handle_query sync_status h = sync_is h.sync_worker.paused h.sync_worker.running

-- A collection that fails is no error here, and the session is triggered all the same.
unfoldable pub handle_hook_event : Files → HookEvent → ℕ → Handler → Handler × Response
handle_hook_event files event now h = elim event.transcript_path [
  | none ↦ (h, ok)
  | some path ↦
      if files.exists path
      then (
        trigger_session event.session_id
            (record h { db = (trigger_collect files path now h.db).0 }),
        ok,
      )
      else (h, ok)
]

unfoldable pub handle : Files → ℕ → Request → Handler → Handler × Response
handle files now (handshake component version) h = (h, handshake_ok)
handle files now (notify_file_change path) h = handle_file_change files path now h
handle files now (write_index_result session_id ids) h = handle_write_index_result ids h
handle files now (write_compact_result session_id talk_id l2 l3) h =
    handle_write_compact_result session_id talk_id l2 l3 now h
handle files now (write_approve_result call verdict at) h =
    handle_write_approve_result call verdict at h
handle files now heartbeat h = (h, ok)
handle files now (query q) h = (h, handle_query q h)
handle files now (hook_event event) h = handle_hook_event files event now h
handle files now sync_pause h =
    let (w, d) = pause (h.sync_worker, h.sync_db) in (record h { sync_worker = w; sync_db = d }, ok)
handle files now sync_resume h =
    let (w, d) = resume (h.sync_worker, h.sync_db) in
    (record h { sync_worker = w; sync_db = d }, ok)

-- Requests one after the other, each at its time.
unfoldable pub handle_all : Files → List (ℕ × Request) → Handler → Handler × List Response
handle_all files [] h = (h, [])
handle_all files ((now, r) ∷ rs) h =
    let (h1, answer) = handle files now r h in
    let (h2, answers) = handle_all files rs h1 in (h2, answer ∷ answers)
