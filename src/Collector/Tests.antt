-- ===== src/Collector/Tests.antt =====
-- The theorems of Collector at a session of two messages that is collected for the first time.
mod Walk
use mathlib.Core.Option
use ai_cli_session_db.Prelude.{
  ℕ, String, [], ◌∷◌, none, some, true, false, ◌≡◌, ◌≢◌, refl, inl, Has, arith,
}
use ai_cli_session_db.Prelude.Sorting.{Increasing}
use ai_cli_session_db.Db.{SessionDb, Project, Session, Message, user}
use ai_cli_session_db.Db.Messages.{
  in_session, insert_messages, insert_loop, insert_message, message_row, refresh_count, max_of,
  get_session_max_sequence, get_session_latest_timestamp,
}
use ai_cli_session_db.Db.Chains.{find_node}
use ai_cli_session_db.Sync.Batch.{SyncProject, SyncSession, SyncMessage}
use ai_cli_session_db.Sync.Cursors.{
  SyncDb, find, upsert, get_cursor, update_cursor, update_cursor_with_count, get_state, set_state,
  get_or_init_device_id,
}
use ai_cli_session_db.Sync.Collect.{
  collect_batch, read_messages, read_project, read_session, read_relations, read_talks, read_chains,
  sync_message, project_of, session_row, read_session_message_count,
}
use ai_cli_session_db.Sync.Filter.{is_allowed, allowed_paths, allowed_sessions, filter_projects}
use ai_cli_session_db.Sync.Client.{
  Job, Run, SyncPushRequest, effective_api_key, advance_cursor, batch_cursors, push_batch,
  max_sequence, collect_and_filter_batch, push_step, sync_step, sync_loop, close_run, stats, finish,
  sync_session,
}
use ai_cli_session_db.Sync.Client.Chunks.{seq, ordered}
use ai_cli_session_db.Collector.{
  ParsedMessage, message_input, number_messages, start_sequence, collect_session, collect_path,
}
use ai_cli_session_db.Prelude.{is_empty, if◌then◌else◌}
use ai_cli_session_db.Db.Messages.{get_session_message_count}
use ai_cli_session_db.Db.Projects.{get_or_create_project_with_encoded, project_id}
use ai_cli_session_db.Db.Sessions.{upsert_session_full, find_session, merge_session, new_session}
use ai_cli_session_db.Collector.Path.{
  ParsedFile, session_input, write_relation, write_continuation, stored_rest, store_session,
  store_file, write_state,
}
use ai_cli_session_db.Collector.Path.Counted.{store_file-count}
use ai_cli_session_db.Prelude.{Option, All}
use ai_cli_session_db.Sync.Client.{BatchStats}
use ai_cli_session_db.Collector.First.{collect_session-first}
use ai_cli_session_db.Collector.Numbering.{collect_session-Increasing}

abbrev session : Session
session = record {
  id = 1;
  session_id = "s1";
  project_id = 1;
  message_count = 3;
  last_message_at = none;
  cwd = none;
  model = none;
  channel = none;
  file_mtime = none;
  file_size = none;
  file_offset = none;
  file_inode = none;
  meta = none;
  session_type = none;
  source = none;
  created_at = 1;
  updated_at = 1;
}

abbrev project : Project
project = record {
  id = 1;
  name = "p";
  path = "/p";
  source = "claude";
  encoded_dir_name = none;
  repo_url = none;
  created_at = 1;
  updated_at = 1;
}

abbrev sync_project : SyncProject
sync_project = record { path = "/p"; name = "p"; source = "claude"; repo_url = none }

abbrev sync_session_row : SyncSession
sync_session_row = record {
  session_id = "s1";
  project_path = "/p";
  cwd = none;
  model = none;
  channel = none;
  message_count = 3;
  last_message_at = none;
  session_type = none;
  source = none;
  meta = none;
  created_at = 1;
  updated_at = 1;
}

abbrev empty_db : SessionDb
empty_db = record {
  foreign_keys = true;
  projects = project ∷ [];
  sessions = session ∷ [];
  messages = [];
  talks = [];
  session_relations = [];
  continuation_chains = [];
  continuation_chain_nodes = [];
  last_project_id = 1;
  last_session_id = 1;
  last_message_id = 0;
  last_talk_id = 0;
}

abbrev parsed : String → ℕ → ParsedMessage
parsed uuid time = record {
  uuid = uuid;
  message_type = user;
  content_text = [];
  content_full = [];
  timestamp = some time;
  source = "claude";
  channel = none;
  model = none;
  tool_call_id = none;
  tool_name = none;
  tool_args = none;
  raw = none;
}

collect_session-Increasing_example :
    Increasing seq
      (ordered "s1" (collect_session "s1" 9 (parsed "u1" 5 ∷ parsed "u2" 6 ∷ []) empty_db).0)
    × Increasing seq
        (ordered "s1" (collect_path "s1" 9 (parsed "u1" 5 ∷ parsed "u2" 6 ∷ []) empty_db).0)
collect_session-Increasing_example =
    collect_session-Increasing "s1" 9 (parsed "u1" 5 ∷ parsed "u2" 6 ∷ []) empty_db tt

abbrev empty_sync : SyncDb
empty_sync = record {
  sync_cursors = [];
  compact_cursors = [];
  vector_cursors = [];
  sync_state = [];
}

abbrev any_job : Job
any_job = record {
  client = record {
    api_key = "key";
    encryption = "none";
    sync_raw = false;
    batch_size = 5;
    project_filter = record { include = none; exclude = none };
    word_filter = none;
  };
  db = empty_db;
  server = λ earlier request. some (record { accepted = 1; skipped = 0 });
  fresh = "device";
  now = 50;
  session_id = "s1";
  project_path = "/p";
}

abbrev second_message : SyncMessage
second_message = record {
  uuid = "u2";
  session_id = "s1";
  msg_type = "user";
  content_text = [];
  content_full = [];
  timestamp = 6;
  sequence = 1;
  source = some "claude";
  channel = none;
  model = none;
  tool_call_id = none;
  tool_name = none;
  tool_args = none;
  raw = none;
  approval_status = none;
  approval_resolved_at = none;
}

abbrev the_request : SyncPushRequest
the_request = record {
  bearer = "key";
  device_id = "device";
  encryption = "none";
  batch = record {
    projects = sync_project ∷ [];
    sessions = record sync_session_row { message_count = 2; updated_at = 9 } ∷ [];
    messages = second_message ∷ [];
    session_relations = [];
    continuation_chains = [];
    chain_nodes = [];
    talks = [];
  };
  cursors = ("s1", record { last_sequence = 1; last_timestamp = 6 }) ∷ [];
}

abbrev the_run : Run
the_run = record {
  sync_db = record empty_sync {
    sync_cursors =
        ("s1", record { last_sequence = 1; last_push_at = 50; synced_message_count = 2 }) ∷ [];
    sync_state = ("device_id", "device") ∷ [];
  };
  sent = the_request ∷ [];
}

run_of_job :
    sync_session 1
      (record any_job {
        db = (collect_session "s1" 9 (parsed "u1" 5 ∷ parsed "u2" 6 ∷ []) empty_db).0;
        session_id = "s1";
      })
      (record { sync_db = empty_sync; sent = [] })
    ≡ some (the_run, some (record { messages_pushed = 1; messages_skipped = 0 }))
unfolding sync_session sync_loop sync_step push_step finish stats close_run push_batch batch_cursors
    advance_cursor effective_api_key get_state get_or_init_device_id set_state upsert find
    get_cursor update_cursor update_cursor_with_count read_session_message_count
    collect_and_filter_batch collect_batch read_chains find_node read_project read_session
    session_row project_of read_messages read_relations read_talks sync_message filter_projects
    allowed_paths allowed_sessions is_allowed max_sequence max_of Option.bind collect_session
    number_messages message_input start_sequence get_session_max_sequence
    get_session_latest_timestamp insert_messages insert_loop insert_message message_row
    refresh_count
run_of_job = refl

collect_session-first_example :
    let done = (collect_session "s1" 9 (parsed "u1" 5 ∷ parsed "u2" 6 ∷ []) empty_db).0 in
    (row : Message) × Has row (in_session "s1" done.messages)
    × (row.uuid ≡ "u1")
    × (row.sequence ≡ 0)
    × ((run : Run) × (stats : Option BatchStats) × (sync_session 3
            (record any_job { db = done; session_id = "s1" })
            (record { sync_db = empty_sync; sent = [] })
          ≡ some (run, stats))
        × All (λ r. All (λ x. x.sequence ≢ 0) r.batch.messages) run.sent)
unfolding collect_session number_messages message_input start_sequence get_session_max_sequence
    get_session_latest_timestamp insert_messages insert_loop insert_message message_row
    refresh_count max_of
collect_session-first_example =
    collect_session-first "s1" 9 (parsed "u1" 5) (parsed "u2" 6 ∷ []) empty_db 3 any_job empty_sync
      refl refl refl (omega arith) (omega arith)

-- A second read of the file, which finds no new message.
abbrev quiet : ParsedFile
quiet = record {
  session_id = "s1";
  source = "claude";
  cwd = some "/p";
  model = none;
  project_name = "p";
  encoded_dir_name = none;
  file_mtime = some 20;
  file_size = 100;
  file_inode = 7;
  offset = some 100;
  file_id = some (20, 100, 7);
  session_type = "main";
  parent_session_id = none;
  continuation_from = none;
  messages = [];
}

abbrev stored_before : SessionDb
stored_before = (collect_session "s1" 9 (parsed "u1" 5 ∷ parsed "u2" 6 ∷ []) empty_db).0

abbrev stored_after : SessionDb
stored_after = record stored_before {
  projects = record project { updated_at = 20 } ∷ [];
  sessions =
      record session {
        message_count = 0;
        cwd = some "/p";
        channel = some "code";
        file_mtime = some 20;
        file_size = some 100;
        file_offset = some 100;
        file_inode = some 7;
        session_type = some "main";
        source = some "claude";
        updated_at = 20;
      }
      ∷ [];
}

store_file_run : store_file quiet 20 stored_before ≡ some stored_after
unfolding store_file store_session stored_rest write_state write_relation write_continuation
    session_input upsert_session_full find_session merge_session new_session
    get_or_create_project_with_encoded project_id collect_path collect_session number_messages
    message_input start_sequence get_session_max_sequence get_session_latest_timestamp
    insert_messages insert_loop insert_message message_row refresh_count max_of
store_file_run = refl

store_file-count_example :
    (done : SessionDb) × (store_file quiet 20 stored_before ≡ some done)
    × ((after : Session) × (find_session "s1" done.sessions ≡ some after)
        × (after.message_count
            ≡ (if is_empty quiet.messages then 0 else get_session_message_count "s1" done)))
store_file-count_example = store_file-count quiet 20 stored_before "/p" refl refl
