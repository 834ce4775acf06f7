-- ===== src/Db/Sessions.antt =====
-- src/db.rs, the session rows: creation and update, and the state of incremental reads. `none` is an
-- error of SQLite.
pub mod Upsert
use mathlib.Core.Option
use ai_cli_session_db.Prelude.{
  ℕ, suc, String, List, [], ◌∷◌, ◌++◌, Option, none, some, Bool, not, ◌&&◌, ◌≡◌, refl, sym, ap, ◌∙◌,
  inl, inr, map, any, str_eq, str_eq_iff, if◌then◌else◌, ◌==◌, Bool-cases, Option-cases, arith,
}
use ai_cli_session_db.Db.{SessionDb, Session, Project}

pub record SessionInput : Type 0 where
  pub session_id : String
  pub project_id : ℕ
  pub cwd : Option String
  pub model : Option String
  pub channel : Option String
  pub message_count : Option ℕ
  pub file_mtime : Option ℕ
  pub file_size : Option ℕ
  pub file_offset : Option ℕ
  pub file_inode : Option ℕ
  pub meta : Option String
  pub session_type : Option String
  pub source : Option String

-- `WHERE session_id = ?1` on a unique column.
unfoldable pub find_session : String → List Session → Option Session
find_session id [] = none
find_session id (s ∷ ss) = if str_eq s.session_id id then some s else find_session id ss

-- `COALESCE(excluded.…, sessions.…)`.
abbrev pub coalesce : {A : Type 0} → Option A → Option A → Option A
coalesce none old = old
coalesce (some a) old = some a

-- The row that the conflict leaves: the project, the time of creation and the last message stay.
unfoldable pub merge_session : SessionInput → ℕ → ℕ → Session → Session
merge_session i count now s = record s {
  cwd = coalesce i.cwd s.cwd;
  model = coalesce i.model s.model;
  channel = coalesce i.channel s.channel;
  message_count = count;
  file_mtime = coalesce i.file_mtime s.file_mtime;
  file_size = coalesce i.file_size s.file_size;
  file_offset = coalesce i.file_offset s.file_offset;
  file_inode = coalesce i.file_inode s.file_inode;
  meta = coalesce i.meta s.meta;
  session_type = coalesce i.session_type s.session_type;
  source = coalesce i.source s.source;
  updated_at = now;
}

unfoldable pub new_session : SessionInput → ℕ → ℕ → ℕ → Session
new_session i count now id = record {
  id = id;
  session_id = i.session_id;
  project_id = i.project_id;
  message_count = count;
  last_message_at = none;
  cwd = i.cwd;
  model = i.model;
  channel = i.channel;
  file_mtime = i.file_mtime;
  file_size = i.file_size;
  file_offset = i.file_offset;
  file_inode = i.file_inode;
  meta = i.meta;
  session_type = i.session_type;
  source = i.source;
  created_at = now;
  updated_at = now;
}

-- `UPDATE sessions SET … WHERE session_id = …`.
abbrev pub update_session : String → (Session → Session) → SessionDb → SessionDb
update_session id f db = record db {
  sessions = map (λ s. if str_eq s.session_id id then f s else s) db.sessions;
}

-- `upsert_session_full`. The column of the count is NOT NULL, which is checked before the conflict,
-- so that an input without a count fails for a session that is there as well.
unfoldable pub upsert_session_full : SessionInput → ℕ → SessionDb → Option SessionDb
upsert_session_full i now db = elim i.message_count [
  | none ↦ none
  | some count ↦ elim (find_session i.session_id db.sessions) [
    | some old ↦ some (update_session i.session_id (merge_session i count now) db)
    | none ↦
        if db.foreign_keys && not (any (λ (p : Project). p.id == i.project_id) db.projects)
        then none
        else some (record db {
          sessions = db.sessions ++ new_session i count now (suc db.last_session_id) ∷ [];
          last_session_id = suc db.last_session_id;
        })
  ]
]

unfoldable pub session_exists : String → SessionDb → Bool
session_exists id db = any (λ s. str_eq s.session_id id) db.sessions

unfoldable pub get_scan_checkpoint : String → SessionDb → Option ℕ
get_scan_checkpoint id db = Option.bind (find_session id db.sessions) (λ s. s.last_message_at)

unfoldable pub get_session_file_mtime : String → SessionDb → Option ℕ
get_session_file_mtime id db = Option.bind (find_session id db.sessions) (λ s. s.file_mtime)

pub record IncrementalState : Type 0 where
  pub offset : ℕ
  pub mtime : Option ℕ
  pub size : Option ℕ
  pub inode : Option ℕ

unfoldable pub get_session_incremental_state : String → SessionDb → Option IncrementalState
get_session_incremental_state id db =
    Option.map
      (λ (s : Session). record {
        offset = elim s.file_offset [ none ↦ 0 | some n ↦ n ];
        mtime = s.file_mtime;
        size = s.file_size;
        inode = s.file_inode;
      })
      (find_session id db.sessions)

unfoldable pub update_session_incremental_state : String → ℕ → ℕ → ℕ → ℕ → ℕ → SessionDb → SessionDb
update_session_incremental_state id offset mtime size inode now db =
    update_session id
      (λ s. record s {
        file_offset = some offset;
        file_mtime = some mtime;
        file_size = some size;
        file_inode = some inode;
        updated_at = now;
      })
      db

unfoldable pub update_session_last_message : String → ℕ → ℕ → SessionDb → SessionDb
update_session_last_message id timestamp now db =
    update_session id (λ s. record s { last_message_at = some timestamp; updated_at = now }) db

-- What `upsert_session_full` makes of the old row, if there is one.
abbrev pub upserted : SessionInput → ℕ → ℕ → ℕ → Option Session → Session
upserted i count now id none = new_session i count now id
upserted i count now id (some s) = merge_session i count now s
