-- ===== src/Collector/Path.antt =====
-- src/collector.rs, collect_by_path from the point where the file is parsed: the rows that one parsed
-- file writes. What the library read from the file and its path is the record `ParsedFile`.
pub mod Total
pub mod Counted
pub mod State
use ai_cli_session_db.Prelude.{
  ℕ, String, List, [], ◌∷◌, ◌++◌, Option, none, some, ◌&&◌, ◌||◌, any, is_empty, length, str_eq,
  if◌then◌else◌,
}
use ai_cli_session_db.Db.{SessionDb, SessionRelation}
use ai_cli_session_db.Db.Projects.{get_or_create_project_with_encoded}
use ai_cli_session_db.Db.Sessions.{
  SessionInput, upsert_session_full, update_session_incremental_state,
}
use ai_cli_session_db.Db.Chains.{insert_continuation}
use ai_cli_session_db.Collector.{ParsedMessage, collect_path}

-- `insert_session_relation`: OR IGNORE passes over a row that is there and one that the check of
-- the table refuses.
unfoldable pub insert_session_relation :
    String → String → String → String → ℕ → SessionDb → SessionDb
insert_session_relation parent child relation_type source created db =
    if str_eq parent child
      || any
          (λ (r : SessionRelation).
            str_eq r.parent_session_id parent
            && str_eq r.child_session_id child
            && str_eq r.relation_type relation_type)
          db.session_relations
    then db
    else record db {
      session_relations =
          db.session_relations
          ++ record {
            parent_session_id = parent;
            child_session_id = child;
            relation_type = relation_type;
            source = source;
            created_at = created;
          }
            ∷ [];
    }

-- `continuation_from` is read from files of Claude only.
pub record ParsedFile : Type 0 where
  pub session_id : String
  pub source : String
  pub cwd : Option String
  pub model : Option String
  pub project_name : String
  pub encoded_dir_name : Option String
  pub file_mtime : Option ℕ
  pub file_size : ℕ
  pub file_inode : ℕ
  pub offset : Option ℕ
  -- Of the new reader state: the mtime, the size and the inode, where it has them.
  pub file_id : Option (ℕ × ℕ × ℕ)
  pub session_type : String
  pub parent_session_id : Option String
  pub continuation_from : Option String
  pub messages : List ParsedMessage

unfoldable pub session_input : ParsedFile → ℕ → SessionInput
session_input file project_id = record {
  session_id = file.session_id;
  project_id = project_id;
  cwd = file.cwd;
  model = file.model;
  channel = some "code";
  message_count = some (length file.messages);
  file_mtime = file.file_mtime;
  file_size = some file.file_size;
  file_offset = file.offset;
  file_inode = some file.file_inode;
  meta = none;
  session_type = some file.session_type;
  source = some file.source;
}

-- The relation to the parent, where the path names one.
unfoldable pub write_relation : ParsedFile → ℕ → SessionDb → SessionDb
write_relation file now db = elim file.parent_session_id [
  | none ↦ db
  | some parent ↦ insert_session_relation parent file.session_id "subagent" file.source now db
]

-- The continuation, where the file names one; an error is logged. (On linked tables there is none.)
unfoldable pub write_continuation : ParsedFile → ℕ → SessionDb → SessionDb
write_continuation file now db = elim file.continuation_from [
  | none ↦ db
  | some prev ↦ elim (insert_continuation file.session_id prev now db) [
    | none ↦ db
    | some db' ↦ db'
  ]
]

-- The state of the incremental reader. A file without messages ends before.
unfoldable pub write_state : ParsedFile → ℕ → SessionDb → SessionDb
write_state file now db = if is_empty file.messages then db else elim file.offset [
  | none ↦ db
  | some offset ↦ elim file.file_id [
    | none ↦ db
    | some (mtime, size, inode) ↦
        update_session_incremental_state file.session_id offset mtime size inode now db
  ]
]

-- What follows the row of the session.
unfoldable pub stored_rest : ParsedFile → ℕ → SessionDb → SessionDb
stored_rest file now db =
    write_state file now
      (collect_path file.session_id now file.messages
        (write_continuation file now (write_relation file now db))).0

-- The project, the session and the rest; `none` where the session could not be written, which is
-- reported. The source has then created the project already, which `none` does not say; the input has
-- a count and the project is there, so that it never comes to this.
unfoldable pub store_session : ParsedFile → String → ℕ → SessionDb → Option SessionDb
store_session file cwd now db =
    let (db1, project) =
      get_or_create_project_with_encoded file.project_name cwd file.source file.encoded_dir_name now
        db in
    elim (upsert_session_full (session_input file project) now db1) [
      | none ↦ none
      | some db2 ↦ some (stored_rest file now db2)
    ]

-- `collect_by_path` after the parse: a file without a working directory writes nothing.
unfoldable pub store_file : ParsedFile → ℕ → SessionDb → Option SessionDb
store_file file now db = elim file.cwd [
  | none ↦ some db
  | some cwd ↦ if str_eq cwd "" then some db else store_session file cwd now db
]
