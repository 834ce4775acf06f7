-- ===== src/Sync/Tests.antt =====
-- The theorems of Sync at a concrete database: one project, one session, three messages.
mod Ws
mod Loops
mod Rules
use mathlib.Core.Option
use ai_cli_session_db.Prelude.{drop, ◌<◌}
use ai_cli_session_db.Prelude.{
  ℕ, ◌+◌, Text, List, [], ◌∷◌, Option, none, some, true, false, ◌≡◌, ◌↔◌, refl, inl, any, ◌==◌,
  str_eq, map, length, arith, if◌then◌else◌, ◌^◌,
}
use ai_cli_session_db.Prelude.Sorting.{left_of}
use ai_cli_session_db.Db.{SessionDb, Project, Session, Message, unindexed, user}
use ai_cli_session_db.Db.Messages.{max_of}
use ai_cli_session_db.Db.Chains.{find_node}
use ai_cli_session_db.Sync.Batch.{SyncBatch, SyncProject, SyncSession, SyncMessage}
use ai_cli_session_db.Sync.Cursors.{
  SyncDb, find, upsert, get_cursor, update_cursor, update_cursor_with_count, get_state, set_state,
  get_or_init_device_id,
}
use ai_cli_session_db.Sync.Collect.{
  collect_batch, read_messages, read_project, read_session, read_relations, read_talks, read_chains,
  sync_message, project_of, session_row, read_session_message_count, has_new_messages,
}
use ai_cli_session_db.Sync.Filter.{
  ProjectFilter, SensitiveWordFilter, block_mode, is_allowed, allowed_paths, allowed_sessions,
  filter_projects, contains_sensitive, is_message_sensitive, block_batch, filter_words,
}
use ai_cli_session_db.Sync.Client.{
  SyncClient, SyncPushRequest, Server, Job, Run, BatchStats, effective_api_key, advance_cursor,
  batch_cursors, push_batch, max_sequence, collect_and_filter_batch, push_step, sync_step,
  sync_loop, close_run, stats, finish, filter_batch, sync_session,
}
use ai_cli_session_db.Sync.Client.Safe.{sync_session-safe}
use ai_cli_session_db.Sync.Client.Leaving.{SafeMessage}
use ai_cli_session_db.Sync.Client.Chunks.{seq, ordered}
use ai_cli_session_db.Sync.Client.Complete.{sync_session_complete}
use ai_cli_session_db.Sync.Client.Deliver.{IsClear, sent_messages}
use ai_cli_session_db.Sync.Client.Stranded.{waiting, sync_session-stranded}
use ai_cli_session_db.Sync.Client.Total.{sync_session-total}

abbrev message : ℕ → Text → Message
message n text = record {
  id = n;
  session_id = "s1";
  uuid = "u";
  msg_type = user;
  content_text = text;
  content_full = text;
  timestamp = n;
  sequence = n;
  source = none;
  channel = none;
  model = none;
  tool_call_id = none;
  tool_name = none;
  tool_args = none;
  raw = none;
  vector_indexed = unindexed;
  approval_status = none;
  approval_resolved_at = none;
}

abbrev session : Session
session = record {
  id = 1;
  session_id = "s1";
  project_id = 1;
  message_count = 3;
  last_message_at = none;
  cwd = none;
  model = none;
  channel = none;
  file_mtime = none;
  file_size = none;
  file_offset = none;
  file_inode = none;
  meta = none;
  session_type = none;
  source = none;
  created_at = 1;
  updated_at = 1;
}

abbrev project : Project
project = record {
  id = 1;
  name = "p";
  path = "/p";
  source = "claude";
  encoded_dir_name = none;
  repo_url = none;
  created_at = 1;
  updated_at = 1;
}

-- The first message is the one with a sensitive word.
abbrev database : SessionDb
database = record {
  foreign_keys = true;
  projects = project ∷ [];
  sessions = session ∷ [];
  messages = message 1 (7 ∷ []) ∷ message 2 (8 ∷ []) ∷ message 3 (9 ∷ []) ∷ [];
  talks = [];
  session_relations = [];
  continuation_chains = [];
  continuation_chain_nodes = [];
  last_project_id = 1;
  last_session_id = 1;
  last_message_id = 3;
  last_talk_id = 0;
}

abbrev pub no_secrets : ProjectFilter
no_secrets = record { include = none; exclude = some (λ path. str_eq path "/secret") }

-- The sensitive word is the character 7.
abbrev pub sevens : SensitiveWordFilter
sevens = record {
  automaton = record { is_match = λ t. any (λ c. c == 7) t; replace_all = λ t words. t };
  mode = block_mode;
  patterns_count = 1;
}

abbrev client : Option SensitiveWordFilter → SyncClient
client words = record {
  api_key = "key";
  encryption = "none";
  sync_raw = false;
  batch_size = 2;
  project_filter = no_secrets;
  word_filter = words;
}

abbrev accepting : Server
accepting earlier request = some (record { accepted = length request.batch.messages; skipped = 0 })

abbrev job : Option SensitiveWordFilter → Job
job words = record {
  client = client words;
  db = database;
  server = accepting;
  fresh = "device";
  now = 50;
  session_id = "s1";
  project_path = "/p";
}

abbrev pub empty_sync : SyncDb
empty_sync = record {
  sync_cursors = [];
  compact_cursors = [];
  vector_cursors = [];
  sync_state = [];
}

abbrev begin : Run
begin = record { sync_db = empty_sync; sent = [] }

abbrev pub sync_project : SyncProject
sync_project = record { path = "/p"; name = "p"; source = "claude"; repo_url = none }

abbrev sync_session_row : SyncSession
sync_session_row = record {
  session_id = "s1";
  project_path = "/p";
  cwd = none;
  model = none;
  channel = none;
  message_count = 3;
  last_message_at = none;
  session_type = none;
  source = none;
  meta = none;
  created_at = 1;
  updated_at = 1;
}

abbrev pub batch_of : List SyncMessage → SyncBatch
batch_of messages = record {
  projects = sync_project ∷ [];
  sessions = sync_session_row ∷ [];
  messages = messages;
  session_relations = [];
  continuation_chains = [];
  chain_nodes = [];
  talks = [];
}

sync_session-total_example :
    (r : Run) × (stats : Option BatchStats) × (sync_session 4 (job (some sevens)) begin
      ≡ some (r, stats))
sync_session-total_example = sync_session-total 4 (job (some sevens)) begin (omega arith)

all-IsClear : IsClear (job none)
unfolding read_project read_session session_row project_of read_chains find_node is_allowed
    Option.bind
all-IsClear = record {
  no_words = refl;
  keyed = refl;
  answers = λ sent r. (record { accepted = length r.batch.messages; skipped = 0 }, refl);
  project = sync_project;
  project_read = refl;
  project_allowed = refl;
  session = sync_session_row;
  session_read = refl;
  session_id = refl;
  session_path = refl;
  chains = ([], []);
  chains_read = refl;
  distinct = ((omega arith, (omega arith, tt)), ((omega arith, tt), (tt, tt)));
}

sync_session_complete_example :
    (run : Run) × (stats : BatchStats) × (sync_session 4 (job none) begin ≡ some (run, some stats))
    × (sent_messages run.sent
        ≡ map
            (sync_message false)
            (left_of seq (get_cursor "s1" empty_sync).0 (ordered "s1" database)))
    × (left_of seq (get_cursor "s1" run.sync_db).0 (ordered "s1" database) ≡ [])
sync_session_complete_example =
    sync_session_complete (job none) all-IsClear 4 1 empty_sync refl (omega arith)

-- The message that is let through, as it is sent.
abbrev pub sent_message : ℕ → Text → SyncMessage
sent_message n text = record {
  uuid = "u";
  session_id = "s1";
  msg_type = "user";
  content_text = text;
  content_full = text;
  timestamp = n;
  sequence = n;
  source = none;
  channel = none;
  model = none;
  tool_call_id = none;
  tool_name = none;
  tool_args = none;
  raw = none;
  approval_status = none;
  approval_resolved_at = none;
}

abbrev left_batch : SyncBatch
left_batch = batch_of (sent_message 2 (8 ∷ []) ∷ [])

-- The read of the first two messages, of which the sensitive one is dropped.
first_read :
    collect_and_filter_batch (client (some sevens)) database "s1" "/p" 0
    ≡ some (some (left_batch, 2, 1))
unfolding collect_and_filter_batch collect_batch read_chains find_node read_project read_session
    session_row project_of read_messages read_relations read_talks sync_message filter_projects
    allowed_paths allowed_sessions is_allowed filter_words block_batch is_message_sensitive
    contains_sensitive max_sequence max_of Option.bind
first_read = refl

-- The read before the filters: two messages, of which the word 7 blocks the first.
abbrev whole_batch : SyncBatch
whole_batch = batch_of (sent_message 1 (7 ∷ []) ∷ sent_message 2 (8 ∷ []) ∷ [])

whole_read : collect_batch false 2 "s1" "/p" 0 database ≡ some whole_batch
unfolding collect_batch read_chains find_node read_project read_session session_row project_of
    read_messages read_relations read_talks sync_message Option.bind
whole_read = refl

sync_session-stranded_example :
    let request = filter_batch (client (some sevens)) whole_batch in
    (run : Run) × (stats : BatchStats) × (sync_session 4 (job (some sevens)) begin
      ≡ some (run, some stats))
    × (run.sent ≡ (push_batch (client (some sevens)) "device" accepting request begin).0.sent)
    × (waiting (job (some sevens)) (get_cursor "s1" run.sync_db).0
        ≡ drop 2 (waiting (job (some sevens)) 0))
    × (0 < length (waiting (job (some sevens)) (get_cursor "s1" run.sync_db).0))
    × (has_new_messages run.sync_db session ≡ false)
unfolding session_row get_cursor find push_batch effective_api_key get_state get_or_init_device_id
    set_state upsert filter_projects allowed_paths allowed_sessions is_allowed filter_words
    block_batch is_message_sensitive contains_sensitive
sync_session-stranded_example =
    sync_session-stranded 3 (job (some sevens)) empty_sync session whole_batch
      (record { accepted = 1; skipped = 0 }) refl whole_read
      ((omega arith, (omega arith, tt)), ((omega arith, tt), (tt, tt))) (omega arith) refl
      (omega arith) refl

-- A message with the sequence 3 is left above the cursor of that run.
stranded_left : left_of seq 2 (ordered "s1" database) ≡ message 3 (9 ∷ []) ∷ []
stranded_left = refl

abbrev the_request : SyncPushRequest
the_request = record {
  bearer = "key";
  device_id = "device";
  encryption = "none";
  batch = left_batch;
  cursors = ("s1", record { last_sequence = 2; last_timestamp = 2 }) ∷ [];
}

abbrev the_run : Run
the_run = record {
  sync_db = record empty_sync {
    sync_cursors =
        ("s1", record { last_sequence = 2; last_push_at = 50; synced_message_count = 3 }) ∷ [];
    sync_state = ("device_id", "device") ∷ [];
  };
  sent = the_request ∷ [];
}

run_of_job :
    sync_session 2 (job (some sevens)) begin
    ≡ some (the_run, some (record { messages_pushed = 1; messages_skipped = 0 }))
unfolding sync_session sync_loop sync_step push_step finish stats close_run push_batch batch_cursors
    advance_cursor effective_api_key get_state get_or_init_device_id set_state upsert find
    get_cursor update_cursor update_cursor_with_count read_session_message_count
    collect_and_filter_batch collect_batch read_chains find_node read_project read_session
    session_row project_of read_messages read_relations read_talks sync_message filter_projects
    allowed_paths allowed_sessions is_allowed filter_words block_batch is_message_sensitive
    contains_sensitive max_sequence max_of Option.bind
run_of_job = refl

sync_session-safe_example :
    SafeMessage (job (some sevens)) (get_cursor "s1" empty_sync).0 (sent_message 2 (8 ∷ []))
sync_session-safe_example =
    sync_session-safe 2 (job (some sevens)) empty_sync the_run
      (some (record { messages_pushed = 1; messages_skipped = 0 })) run_of_job the_request
      (sent_message 2 (8 ∷ [])) (inl refl) (inl refl)
