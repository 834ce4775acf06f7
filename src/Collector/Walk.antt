-- ===== src/Collector/Walk.antt =====
-- src/collector.rs, collect_all: every session of every adapter. The adapters, which list and parse
-- the session files, are a parameter; an error is counted, its text left out.
pub mod Sound
pub mod Twice
use ai_cli_session_db.Prelude.{
  ℕ, suc, ◌+◌, String, List, [], ◌∷◌, ◌++◌, Option, none, some, Bool, true, false, length, str_eq,
  ltb, ◌==◌, if◌then◌else◌,
}
use ai_cli_session_db.Db.{SessionDb}
use ai_cli_session_db.Db.Projects.{get_or_create_project_with_encoded}
use ai_cli_session_db.Db.Sessions.{SessionInput, upsert_session_full, get_session_file_mtime}
use ai_cli_session_db.Db.Chains.{insert_continuation}
use ai_cli_session_db.Collector.{ParsedMessage, collect_session}
use ai_cli_session_db.Collector.Path.{insert_session_relation}

-- What an adapter lists; `path_name` is the name that the end of the project path gives.
pub record SessionMeta : Type 0 where
  pub id : String
  pub project_path : String
  pub project_name : Option String
  pub path_name : String
  pub encoded_dir_name : Option String
  pub channel : Option String
  pub file_mtime : Option ℕ
  pub file_size : Option ℕ
  pub session_type : Option String
  pub parent_session_id : Option String
  pub continuation_from : Option String

pub record ParseResult : Type 0 where
  pub cwd : Option String
  pub model : Option String
  pub messages : List ParsedMessage

pub data ParseOutcome : Type 0 where
  parse_failed no_session : ParseOutcome
  parsed_session : ParseResult → ParseOutcome

-- `none` is a list of sessions that fails.
pub record Adapter : Type 0 where
  pub source : String
  pub sessions : Option (List SessionMeta)
  pub parse : SessionMeta → ParseOutcome

pub record CollectResult : Type 0 where
  pub projects_scanned : ℕ
  pub sessions_scanned : ℕ
  pub messages_inserted : ℕ
  pub new_message_ids : List ℕ
  pub errors : ℕ

abbrev pub with_error : CollectResult → CollectResult
with_error r = record r { errors = suc r.errors }

abbrev pub same_mtime : Option ℕ → Option ℕ → Bool
same_mtime none stored = false
same_mtime (some t) none = false
same_mtime (some t) (some u) = t == u

-- The mtime of the file is the stored one.
abbrev pub is_unchanged : SessionMeta → SessionDb → Bool
is_unchanged meta db = same_mtime meta.file_mtime (get_session_file_mtime meta.id db)

abbrev pub or_else : Option String → String → String
or_else none d = d
or_else (some s) d = s

unfoldable pub meta_input : Adapter → SessionMeta → ParseResult → ℕ → SessionInput
meta_input a meta p project = record {
  session_id = meta.id;
  project_id = project;
  cwd = p.cwd;
  model = p.model;
  channel = meta.channel;
  message_count = some (length p.messages);
  file_mtime = meta.file_mtime;
  file_size = meta.file_size;
  file_offset = none;
  file_inode = none;
  meta = none;
  session_type = meta.session_type;
  source = some a.source;
}

unfoldable pub meta_relation : Adapter → SessionMeta → ℕ → SessionDb → SessionDb
meta_relation a meta now db = elim meta.parent_session_id [
  | none ↦ db
  | some parent ↦
      insert_session_relation parent meta.id (or_else meta.session_type "subagent") a.source now db
]

unfoldable pub meta_continuation : SessionMeta → ℕ → SessionDb → SessionDb
meta_continuation meta now db = elim meta.continuation_from [
  | none ↦ db
  | some prev ↦ elim (insert_continuation meta.id prev now db) [ none ↦ db | some db' ↦ db' ]
]

-- A session counts as scanned where a message of it was new.
abbrev pub with_messages : ℕ → List ℕ → CollectResult → CollectResult
with_messages inserted ids r =
    if ltb 0 inserted
    then record r {
      sessions_scanned = suc r.sessions_scanned;
      messages_inserted = r.messages_inserted + inserted;
      new_message_ids = r.new_message_ids ++ ids;
    }
    else r

-- The row of the session, then the rest, of a file that was parsed.
unfoldable pub store_meta :
    Adapter
    → SessionMeta
    → ParseResult
    → ℕ
    → ℕ
    → SessionDb × CollectResult
    → SessionDb × CollectResult
store_meta a meta p project now (db, r) =
    elim (upsert_session_full (meta_input a meta p project) now db) [
      | none ↦ (db, with_error r)
      | some db1 ↦
          let (done, inserted, ids) =
            collect_session meta.id now p.messages
              (meta_continuation meta now (meta_relation a meta now db1)) in
          (done, with_messages inserted ids r)
    ]

unfoldable pub collect_meta :
    Adapter → ℕ → SessionMeta → SessionDb × CollectResult → SessionDb × CollectResult
collect_meta a now meta (db, r) =
    if str_eq meta.project_path ""
    then (db, r)
    else if is_unchanged meta db
    then (db, r)
    else let (db1, project) =
        get_or_create_project_with_encoded (or_else meta.project_name meta.path_name)
          meta.project_path a.source meta.encoded_dir_name now db in
      elim (a.parse meta) [
        | parse_failed ↦ (db1, with_error r)
        | no_session ↦ (db1, r)
        | parsed_session p ↦ store_meta a meta p project now (db1, r)
      ]

unfoldable pub collect_metas :
    Adapter → ℕ → List SessionMeta → SessionDb × CollectResult → SessionDb × CollectResult
collect_metas a now [] s = s
collect_metas a now (m ∷ ms) s = collect_metas a now ms (collect_meta a now m s)

unfoldable pub collect_adapters :
    ℕ → List Adapter → SessionDb × CollectResult → SessionDb × CollectResult
collect_adapters now [] s = s
collect_adapters now (a ∷ others) (db, r) = elim a.sessions [
  | none ↦ collect_adapters now others (db, with_error r)
  | some ms ↦
      let (db1, r1) = collect_metas a now ms (db, r) in
      collect_adapters now others (db1, record r1 { projects_scanned = suc r1.projects_scanned })
]

unfoldable pub collect_all : ℕ → List Adapter → SessionDb → SessionDb × CollectResult
collect_all now adapters db = collect_adapters now adapters (
  db,
  record {
    projects_scanned = 0;
    sessions_scanned = 0;
    messages_inserted = 0;
    new_message_ids = [];
    errors = 0;
  },
)
