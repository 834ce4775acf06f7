-- ===== src/Collector/Tests/Walk.antt =====
-- The theorems of Collector.Walk at an adapter with one new session and one that cannot be parsed.
use ai_cli_session_db.Prelude.{
  String, [], ◌∷◌, none, some, if◌then◌else◌, str_eq, length, ◌≡◌, refl,
}
use ai_cli_session_db.Db.Chains.{find_node}
use ai_cli_session_db.Db.Chains.Linked.{Linked}
use ai_cli_session_db.Collector.Walk.{
  SessionMeta, ParseResult, parsed_session, parse_failed, Adapter, CollectResult, collect_all,
  collect_meta,
}
use ai_cli_session_db.Collector.Walk.Sound.{IsCounted, collect_all-IsCounted}
use ai_cli_session_db.Collector.Walk.Twice.{collect_meta_twice}
use ai_cli_session_db.Collector.Tests.{parsed, empty_db}

abbrev meta_of : String → SessionMeta
meta_of id = record {
  id = id;
  project_path = "/new";
  project_name = none;
  path_name = "new";
  encoded_dir_name = none;
  channel = none;
  file_mtime = some 7;
  file_size = none;
  session_type = none;
  parent_session_id = none;
  continuation_from = some "s0";
}

abbrev two_messages : ParseResult
two_messages = record {
  cwd = some "/new";
  model = none;
  messages = parsed "u1" 5 ∷ parsed "u2" 6 ∷ [];
}

abbrev adapter : Adapter
adapter = record {
  source = "claude";
  sessions = some (meta_of "s7" ∷ meta_of "s8" ∷ []);
  parse = λ meta. if str_eq meta.id "s7" then parsed_session two_messages else parse_failed;
}

empty-Linked : Linked empty_db
unfolding find_node
empty-Linked = record { hangs = λ id n e. cc; owned = λ id n e. cc; named = tt }

collect_all-IsCounted_example :
    IsCounted (length empty_db.messages) (collect_all 9 (adapter ∷ []) empty_db)
collect_all-IsCounted_example = collect_all-IsCounted 9 (adapter ∷ []) empty_db (empty-Linked, tt)

abbrev no_result : CollectResult
no_result = record {
  projects_scanned = 0;
  sessions_scanned = 0;
  messages_inserted = 0;
  new_message_ids = [];
  errors = 0;
}

collect_meta_twice_example :
    collect_meta adapter 30
      (meta_of "s7")
      (collect_meta adapter 9 (meta_of "s7") (empty_db, no_result))
    ≡ collect_meta adapter 9 (meta_of "s7") (empty_db, no_result)
collect_meta_twice_example =
    collect_meta_twice adapter 9 30 7 (meta_of "s7") two_messages empty_db no_result refl refl
