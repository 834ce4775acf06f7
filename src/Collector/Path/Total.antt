-- ===== src/Collector/Path/Total.antt =====
-- src/collector.rs, collect_by_path: that the row of the session is always written.
use ai_cli_session_db.Prelude.{
  not, ◌&&◌, ◌++◌, any, true, ◌==◌, Bool-cases, ℕ, suc, String, List, [], ◌∷◌, Option, none, some,
  ◌≡◌, refl, ◌∙◌, inl, inr, length, str_eq, str_eq_refl, if◌then◌else◌, Option-cases, arith,
}
use ai_cli_session_db.Db.Projects.{project_id, get_or_create_project-project_id}
use ai_cli_session_db.Db.{Project, SessionDb, Session}
use ai_cli_session_db.Db.Projects.{get_or_create_project_with_encoded}
use ai_cli_session_db.Db.Sessions.{
  SessionInput, update_session, upsert_session_full, find_session, merge_session, new_session,
}
use ai_cli_session_db.Collector.Path.{ParsedFile, session_input, stored_rest, store_session}

pub project_id-any :
    (path : String) (id : ℕ) (ps : List Project)
    → project_id path ps ≡ some id
    → any (λ (p : Project). p.id == id) ps ≡ true
unfolding project_id
project_id-any path id [] e = absurd (ground arith)
project_id-any path id (p ∷ ps) e = elim (Bool-cases (str_eq p.path path)) [
  | inl y ↦ ground (arith, rw (y, project_id) at e)
  | inr n ↦ ground (arith, project_id-any path id ps (rw (n, project_id) at e))
]

-- A session of a project that is there, with a count, is written.
pub upsert_session_full-some :
    (i : SessionInput) (count now : ℕ) (db : SessionDb)
    → i.message_count ≡ some count
    → any (λ (p : Project). p.id == i.project_id) db.projects ≡ true
    → (done : SessionDb) × (upsert_session_full i now db ≡ some done)
unfolding upsert_session_full
upsert_session_full-some i count now db c e = elim (Option-cases (upsert_session_full i now db)) [
  | inl f ↦
      absurd (refused (find_session i.session_id db.sessions) (rw (c, upsert_session_full) at f))
  | inr done ↦ done
]
  where
    refused :
        (old : Option Session)
        → elim old [
          | some o ↦ some (update_session i.session_id (merge_session i count now) db)
          | none ↦
              if db.foreign_keys && not (any (λ (p : Project). p.id == i.project_id) db.projects)
              then none
              else some (record db {
                sessions = db.sessions ++ new_session i count now (suc db.last_session_id) ∷ [];
                last_session_id = suc db.last_session_id;
              })
        ]
          ≡ none
        → ⊥
    refused (some o) f = ground (arith, f)
    refused none f = elim (Bool-cases db.foreign_keys) [
      | inl k ↦ ground (arith, rw (k, e) at f)
      | inr k ↦ ground (arith, rw k at f)
    ]

-- The project that the session refers to is there, so that its row is written.
pub store_session-some :
    (file : ParsedFile) (cwd : String) (now : ℕ) (db : SessionDb)
    → (done : SessionDb) × (store_session file cwd now db ≡ some done)
unfolding store_session session_input
store_session-some file cwd now db =
    let (db1, project) =
      get_or_create_project_with_encoded file.project_name cwd file.source file.encoded_dir_name now
        db in
    let named : project_id cwd db1.projects ≡ some project =
      get_or_create_project-project_id file.project_name cwd file.source cwd file.encoded_dir_name
        now db
      ∙ rw (str_eq_refl cwd) refl in
    let (done, e) =
      upsert_session_full-some (session_input file project) (length file.messages) now db1 refl
        (project_id-any cwd project db1.projects named) in
    (stored_rest file now done, rw (e, store_session) refl)
