-- ===== src/Collector/Path/State.antt =====
-- src/collector.rs, collect_by_path: what the state of the incremental reader leaves of the tables.
use ai_cli_session_db.Prelude.{
  ℕ, some, ◌≡◌, refl, ◌∙◌, inl, inr, is_empty, str_eq_refl, Option-cases, Bool-cases, arith,
}
use ai_cli_session_db.Db.{SessionDb, Session}
use ai_cli_session_db.Db.Sessions.{find_session, update_session_incremental_state}
use ai_cli_session_db.Db.Sessions.Upsert.{find_session-update}
use ai_cli_session_db.Collector.Path.{ParsedFile, write_state}

pub write_state-count :
    (file : ParsedFile) (now : ℕ) (db : SessionDb) (row : Session)
    → find_session file.session_id db.sessions ≡ some row
    → (after : Session) × (find_session file.session_id (write_state file now db).sessions
        ≡ some after)
      × (after.message_count ≡ row.message_count)
unfolding write_state update_session_incremental_state
write_state-count file now db row e = elim (Bool-cases (is_empty file.messages)) [
  | inl m ↦ (row, rw m e, refl)
  | inr m ↦ elim (Option-cases file.offset) [
    | inl o ↦ (row, rw (m, o, write_state) e, refl)
    | inr (offset, o) ↦ elim (Option-cases file.file_id) [
      | inl i ↦ (row, rw (m, o, i, write_state) e, refl)
      | inr ((mtime, size, inode), i) ↦
          let f = λ (s : Session). record s {
            file_offset = some offset;
            file_mtime = some mtime;
            file_size = some size;
            file_inode = some inode;
            updated_at = now;
          } in
          (
            f row,
            rw (m, o, i, write_state, update_session_incremental_state)
                (find_session-update file.session_id file.session_id f db.sessions (λ s. refl)
                  ∙ rw (str_eq_refl file.session_id, e) refl),
            refl,
          )
    ]
  ]
]

pub write_state-messages :
    (file : ParsedFile) (now : ℕ) (db : SessionDb)
    → (write_state file now db).messages ≡ db.messages
unfolding write_state update_session_incremental_state
write_state-messages file now db = ground arith
