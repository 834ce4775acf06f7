-- ===== src/Collector/Path/Counted.antt =====
-- src/collector.rs, collect_by_path: the message count that one parsed file leaves.
use ai_cli_session_db.Prelude.{
  ℕ, suc, String, List, [], ◌∷◌, Option, none, some, false, ◌≡◌, refl, sym, ap, ◌∙◌, inl, inr,
  length, is_empty, str_eq, str_eq_refl, if◌then◌else◌, Option-cases, arith, subst,
}
use ai_cli_session_db.Db.{SessionDb, Session}
use ai_cli_session_db.Db.Projects.{get_or_create_project_with_encoded}
use ai_cli_session_db.Db.Sessions.{
  SessionInput, upsert_session_full, find_session, upserted, merge_session, new_session,
}
use ai_cli_session_db.Db.Sessions.Upsert.{find_session-update, upsert_session_full-upserted}
use ai_cli_session_db.Db.Chains.{insert_continuation, open_chain, link, add_node}
use ai_cli_session_db.Db.Messages.{
  MessageInput, insert_messages, insert_loop, refresh_count, get_session_message_count, in_session,
}
use ai_cli_session_db.Db.Messages.Insert.{insert_loop-sessions}
use ai_cli_session_db.Collector.{ParsedMessage, number_messages, start_sequence, collect_path}
use ai_cli_session_db.Collector.Path.Total.{store_session-some}
use ai_cli_session_db.Collector.Path.State.{write_state-count, write_state-messages}
use ai_cli_session_db.Collector.Path.{
  ParsedFile, session_input, insert_session_relation, write_relation, write_continuation,
  stored_rest, store_session, store_file,
}

write_relation-sessions :
    (file : ParsedFile) (now : ℕ) (db : SessionDb)
    → (write_relation file now db).sessions ≡ db.sessions
unfolding write_relation insert_session_relation
write_relation-sessions file now db = ground arith

write_continuation-sessions :
    (file : ParsedFile) (now : ℕ) (db : SessionDb)
    → (write_continuation file now db).sessions ≡ db.sessions
unfolding write_continuation insert_continuation link open_chain add_node
write_continuation-sessions file now db = ground arith

-- The row of a session after its messages are stored.
pub find_session-insert_messages :
    (id : String) (msgs : List MessageInput) (now : ℕ) (db : SessionDb) (row : Session)
    → find_session id db.sessions ≡ some row
    → let done = (insert_messages id msgs now db).0 in
      find_session id done.sessions
      ≡ some (record row { message_count = get_session_message_count id done; updated_at = now })
unfolding insert_messages refresh_count get_session_message_count
find_session-insert_messages id msgs now db row e =
    find_session-update id id
      (λ s. record s {
        message_count = length (in_session id (insert_loop id db msgs).0.messages);
        updated_at = now;
      })
      (insert_loop id db msgs).0.sessions (λ s. refl)
    ∙ rw (str_eq_refl id, insert_loop-sessions id db msgs, e) refl

-- Storing the messages of a file leaves the row of the session, with the count of its messages
-- where the file has any.
find_session-collect_path :
    (id : String) (now : ℕ) (ms : List ParsedMessage) (db : SessionDb) (row : Session)
    → find_session id db.sessions ≡ some row
    → let done = (collect_path id now ms db).0 in
      (after : Session) × (find_session id done.sessions ≡ some after)
      × (after.message_count
          ≡ (if is_empty ms then row.message_count else get_session_message_count id done))
unfolding collect_path number_messages
find_session-collect_path id now [] db row e = (row, e, refl)
find_session-collect_path id now (m ∷ ms) db row e = (
  _,
  find_session-insert_messages id
      (number_messages now (λ timestamp. false) (start_sequence id db) (m ∷ ms)) now db row e,
  refl,
)

upserted-message_count :
    (i : SessionInput) (count now id : ℕ) (old : Option Session)
    → (upserted i count now id old).message_count ≡ count
unfolding new_session merge_session
upserted-message_count i count now id none = refl
upserted-message_count i count now id (some s) = refl

empty_count :
    {A : Type 0} (xs : List A) (n k : ℕ)
    → n ≡ length xs
    → (if is_empty xs then n else k) ≡ (if is_empty xs then 0 else k)
empty_count [] n k e = e
empty_count (x ∷ xs) n k e = refl

upserted_row :
    (file : ParsedFile) (project now : ℕ) (db done : SessionDb)
    → upsert_session_full (session_input file project) now db ≡ some done
    → (row : Session) × (find_session file.session_id done.sessions ≡ some row)
      × (row.message_count ≡ length file.messages)
unfolding session_input
upserted_row file project now db done e =
    let i = session_input file project in
    let (count, c, f) = upsert_session_full-upserted i now db done file.session_id e in
    let old = find_session file.session_id db.sessions in
    let new = suc db.last_session_id in
    let full : some (length file.messages) ≡ some count = c in
    (
      upserted i count now new old,
      f ∙ rw (str_eq_refl file.session_id) refl,
      upserted-message_count i count now new old ∙ sym (ground (arith, full)),
    )

stored_rest-count :
    (file : ParsedFile) (project now : ℕ) (db db2 : SessionDb)
    → upsert_session_full (session_input file project) now db ≡ some db2
    → let done = stored_rest file now db2 in
      (after : Session) × (find_session file.session_id done.sessions ≡ some after)
      × (after.message_count
          ≡ (if is_empty file.messages then 0 else get_session_message_count file.session_id done))
unfolding stored_rest get_session_message_count
stored_rest-count file project now db db2 u =
    let (row, f, n) = upserted_row file project now db db2 u in
    let linked = write_continuation file now (write_relation file now db2) in
    let kept : linked.sessions ≡ db2.sessions =
      write_continuation-sessions file now (write_relation file now db2)
      ∙ write_relation-sessions file now db2 in
    let (after, g, c) =
      find_session-collect_path file.session_id now file.messages linked row
        (ap (find_session file.session_id) kept ∙ f) in
    let stored = (collect_path file.session_id now file.messages linked).0 in
    let (last, h, d) = write_state-count file now stored after g in
    (
      last,
      h,
      d
          ∙ c
          ∙ empty_count file.messages row.message_count
              (get_session_message_count file.session_id stored) n
          ∙ ap (λ ms. if is_empty file.messages then 0 else length (in_session file.session_id ms))
              (sym (write_state-messages file now stored)),
    )

abbrev done_or : SessionDb → Option SessionDb → SessionDb
done_or db none = db
done_or db (some d) = d

store_session-count :
    (file : ParsedFile) (cwd : String) (now : ℕ) (db done : SessionDb)
    → store_session file cwd now db ≡ some done
    → (after : Session) × (find_session file.session_id done.sessions ≡ some after)
      × (after.message_count
          ≡ (if is_empty file.messages then 0 else get_session_message_count file.session_id done))
unfolding store_session
store_session-count file cwd now db done e =
    let (db1, project) =
      get_or_create_project_with_encoded file.project_name cwd file.source file.encoded_dir_name now
        db in
    elim (Option-cases (upsert_session_full (session_input file project) now db1)) [
      | inl u ↦ absurd (ground (arith, u, e))
      | inr (db2, u) ↦
          let written : some (stored_rest file now db2) ≡ some done = rw (u, store_session) at e in
          let same : stored_rest file now db2 ≡ done = ap (done_or db) written in
          subst
            (λ (d : SessionDb).
              (after : Session) × (find_session file.session_id d.sessions ≡ some after)
              × (after.message_count ≡ (
                  if is_empty file.messages
                  then 0
                  else get_session_message_count file.session_id d)))
            same (stored_rest-count file project now db1 db2 u)
    ]

-- A file that has a working directory is stored, and the session has a row. Its count is the number
-- of stored messages of the session where messages were read, and 0 where none were, whatever is
-- stored.
pub store_file-count :
    (file : ParsedFile) (now : ℕ) (db : SessionDb) (cwd : String)
    → file.cwd ≡ some cwd
    → str_eq cwd "" ≡ false
    → (done : SessionDb) × (store_file file now db ≡ some done)
      × ((after : Session) × (find_session file.session_id done.sessions ≡ some after)
          × (after.message_count ≡ (
              if is_empty file.messages
              then 0
              else get_session_message_count file.session_id done)))
unfolding store_file
store_file-count file now db cwd has named =
    let (done, e) = store_session-some file cwd now db in
    (
      done,
      subst
          (λ (c : Option String).
            elim c [
              | none ↦ some db
              | some d ↦ if str_eq d "" then some db else store_session file d now db
            ]
            ≡ some done)
          (sym has) (rw named e),
      store_session-count file cwd now db done e,
    )
