-- ===== src/Agent/Tests/Requests.antt =====
-- The theorems of Agent.Handler at an agent with one session, whose files hold one new message.
use ai_cli_session_db.Prelude.{ℕ, List, [], ◌∷◌, none, some, true, false, ◌≡◌, refl, codes}
use ai_cli_session_db.Db.{SessionDb, Session, approved, user}
use ai_cli_session_db.Db.Sessions.{session_exists}
use ai_cli_session_db.Db.Chains.{find_node}
use ai_cli_session_db.Db.Chains.Linked.{Linked}
use ai_cli_session_db.Db.Talks.{find_talk}
use ai_cli_session_db.Sync.Cursors.{get_state, find}
use ai_cli_session_db.Sync.Worker.{start_worker}
use ai_cli_session_db.Agent.Connections.{new_manager, connection_count}
use ai_cli_session_db.Agent.Handler.{
  Files, parsed, Request, Handler, handle_all, write_compact_result, sync_pause, query, sync_status,
  write_approve_result, notify_file_change, hook_event,
}
use ai_cli_session_db.Agent.Handler.Promise.{Promise, Meets, promise_all}
use ai_cli_session_db.Agent.Handler.Refines.{handle_all-Meets}
use ai_cli_session_db.Agent.Handler.Sound.{AgentSound, handle_all-AgentSound}

abbrev session : Session
session = record {
  id = 1;
  session_id = "s1";
  project_id = 1;
  message_count = 0;
  last_message_at = none;
  cwd = none;
  model = none;
  channel = none;
  file_mtime = none;
  file_size = none;
  file_offset = none;
  file_inode = none;
  meta = none;
  session_type = none;
  source = none;
  created_at = 1;
  updated_at = 1;
}

abbrev database : SessionDb
database = record {
  foreign_keys = true;
  projects = [];
  sessions = session ∷ [];
  messages = [];
  talks = [];
  session_relations = [];
  continuation_chains = [];
  continuation_chain_nodes = [];
  last_project_id = 0;
  last_session_id = 1;
  last_message_id = 0;
  last_talk_id = 0;
}

abbrev agent : Handler
agent = record {
  db = database;
  connections = new_manager;
  sync_worker = record { running = true; paused = false };
  sync_db = record {
    sync_cursors = [];
    compact_cursors = [];
    vector_cursors = [];
    sync_state = [];
  };
  triggers = [];
}

-- Every file goes on with the session s0 and has one message.
abbrev files : Files
files = record {
  read = λ path states. parsed (record {
    session_id = "s1";
    source = "claude";
    cwd = some "/p";
    model = none;
    project_name = "p";
    encoded_dir_name = none;
    file_mtime = some 20;
    file_size = 100;
    file_inode = 7;
    offset = some 100;
    file_id = some (20, 100, 7);
    session_type = "main";
    parent_session_id = none;
    continuation_from = some "s0";
    messages =
        record {
          uuid = "u1";
          message_type = user;
          content_text = [];
          content_full = [];
          timestamp = some 5;
          source = "claude";
          channel = none;
          model = none;
          tool_call_id = none;
          tool_name = none;
          tool_args = none;
          raw = none;
        }
        ∷ [];
  });
  exists = λ path. true;
  file_stem = λ path. some "s1";
}

-- A summary of a session that is there and of one that is not, then a pause.
abbrev direct : List (ℕ × Request)
direct =
    (1, write_compact_result "s1" "t1" (codes "short") none)
    ∷ (2, write_compact_result "s9" "t1" (codes "short") none)
    ∷ (3, sync_pause)
    ∷ (4, query sync_status)
    ∷ []

abbrev promised : Promise
promised = record {
  paused = false;
  running = true;
  connections = 0;
  enforced = true;
  has_session = λ id. session_exists id database;
  talk = λ session_id talk_id. none;
}

agent-Meets : Meets agent promised
unfolding find_talk connection_count
agent-Meets = record {
  paused = refl;
  running = refl;
  connections = refl;
  enforced = refl;
  has_session = λ id. refl;
  talk = λ a b. refl;
}

handle_all-Meets_example :
    Meets (handle_all files direct agent).0 (promise_all direct promised).0
    × ((handle_all files direct agent).1 ≡ (promise_all direct promised).1)
handle_all-Meets_example =
    handle_all-Meets files direct agent promised (tt, (tt, (tt, (tt, tt)))) agent-Meets

database-Linked : Linked database
unfolding find_node
database-Linked = record { hangs = λ id n e. cc; owned = λ id n e. cc; named = tt }

agent-AgentSound : AgentSound agent
unfolding start_worker get_state find
agent-AgentSound = ((database-Linked, tt), λ r. (refl, refl))

-- A file that is collected twice, once through a hook, and an approval.
abbrev mixed : List (ℕ × Request)
mixed =
    (9, notify_file_change "/f")
    ∷ (10, sync_pause)
    ∷ (11, write_approve_result "c1" approved 11)
    ∷ (
      12,
      hook_event (record { event_type = "Stop"; session_id = "s1"; transcript_path = some "/f" }),
    )
    ∷ []

handle_all-AgentSound_example : AgentSound (handle_all files mixed agent).0
handle_all-AgentSound_example = handle_all-AgentSound files mixed agent agent-AgentSound
