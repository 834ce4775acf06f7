-- ===== src/Agent/Handler/Collected.antt =====
-- src/agent/watcher.rs, trigger_collect: what collecting a file keeps true of the tables.
use ai_cli_session_db.Prelude.{
  ℕ, String, Option, none, some, Bool, true, false, ◌≡◌, inl, inr, str_eq, if◌then◌else◌,
  Option-cases, Bool-cases, arith, is_empty,
}
use ai_cli_session_db.Db.{SessionDb}
use ai_cli_session_db.Db.Chains.{insert_continuation, link, open_chain, add_node}
use ai_cli_session_db.Db.Chains.Linked.{Linked, insert_continuation-Linked}
use ai_cli_session_db.Db.Projects.{get_or_create_project_with_encoded}
use ai_cli_session_db.Db.Sessions.{upsert_session_full}
use ai_cli_session_db.Collector.{collect_path, number_messages, start_sequence}
use ai_cli_session_db.Collector.Path.{
  ParsedFile, session_input, write_relation, insert_session_relation, write_continuation,
  stored_rest, store_session, store_file, write_state,
}
use ai_cli_session_db.Db.Sessions.{get_session_incremental_state, update_session_incremental_state}
use ai_cli_session_db.Db.Sound.{
  IsSound, Untouched, IsSound-Untouched, project-Untouched, upsert_session-Untouched,
  insert_messages-IsSound,
}
use ai_cli_session_db.Agent.Handler.{FileRead, unreadable, nothing, parsed, Files, trigger_collect}

relation-Untouched :
    (file : ParsedFile) (now : ℕ) (db : SessionDb) → Untouched db (write_relation file now db)
unfolding write_relation insert_session_relation
relation-Untouched file now db = ground arith

continuation-messages :
    (file : ParsedFile) (now : ℕ) (db : SessionDb)
    → (write_continuation file now db).messages ≡ db.messages
unfolding write_continuation insert_continuation link open_chain add_node
continuation-messages file now db = ground arith

continuation-Linked :
    (file : ParsedFile) (now : ℕ) (db : SessionDb)
    → Linked db
    → Linked (write_continuation file now db)
unfolding write_continuation
continuation-Linked file now db h = from file.continuation_from
  where
    from :
        (o : Option String)
        → Linked (elim o [
          | none ↦ db
          | some prev ↦ elim (insert_continuation file.session_id prev now db) [
            | none ↦ db
            | some db' ↦ db'
          ]
        ])
    from none = h
    from (some prev) =
        let (done, f, k) = insert_continuation-Linked file.session_id prev now db h in rw f k

collect_path-IsSound :
    (id : String) (now : ℕ) (ms : _) (db : SessionDb)
    → IsSound db
    → IsSound (collect_path id now ms db).0
unfolding collect_path
collect_path-IsSound id now ms db s =
    let msgs = number_messages now (λ timestamp. false) (start_sequence id db) ms in
    elim (Bool-cases (is_empty msgs)) [
      | inl e ↦ rw e s
      | inr e ↦ rw e (insert_messages-IsSound id msgs now db s)
    ]

state-Untouched :
    (file : ParsedFile) (now : ℕ) (db : SessionDb) → Untouched db (write_state file now db)
unfolding write_state update_session_incremental_state
state-Untouched file now db = ground arith

stored_rest-IsSound :
    (file : ParsedFile) (now : ℕ) (db : SessionDb) → IsSound db → IsSound (stored_rest file now db)
unfolding stored_rest
stored_rest-IsSound file now db s =
    let related = write_relation file now db in
    let linked = write_continuation file now related in
    let (l, u) = IsSound-Untouched db related (relation-Untouched file now db) s in
    let stored = (collect_path file.session_id now file.messages linked).0 in
    IsSound-Untouched stored (write_state file now stored) (state-Untouched file now stored) (
      collect_path-IsSound file.session_id now file.messages linked
        (continuation-Linked file now related l, rw (continuation-messages file now related) u))

-- A result, where there is one, is sound.
abbrev SoundResult : Option SessionDb → Type 0
SoundResult none = Unit
SoundResult (some db) = IsSound db

store_session-IsSound :
    (file : ParsedFile) (cwd : String) (now : ℕ) (db : SessionDb)
    → IsSound db
    → SoundResult (store_session file cwd now db)
unfolding store_session
store_session-IsSound file cwd now db s =
    let (db1, project) =
      get_or_create_project_with_encoded file.project_name cwd file.source file.encoded_dir_name now
        db in
    let s1 =
      IsSound-Untouched db db1
        (project-Untouched file.project_name cwd file.source file.encoded_dir_name now db) s in
    elim (Option-cases (upsert_session_full (session_input file project) now db1)) [
      | inl e ↦ rw (e, store_session) tt
      | inr (db2, e) ↦
          rw (e, store_session)
            (stored_rest-IsSound file now db2 (
              IsSound-Untouched db1 db2
                (upsert_session-Untouched (session_input file project) now db1 db2 e) s1))
    ]

store_file-IsSound :
    (file : ParsedFile) (now : ℕ) (db : SessionDb)
    → IsSound db
    → SoundResult (store_file file now db)
unfolding store_file
store_file-IsSound file now db s = from file.cwd
  where
    from :
        (cwd : Option String)
        → SoundResult (elim cwd [
          | none ↦ some db
          | some c ↦ if str_eq c "" then some db else store_session file c now db
        ])
    from none = s
    from (some c) = elim (Bool-cases (str_eq c "")) [
      | inl e ↦ rw e s
      | inr e ↦ rw e (store_session-IsSound file c now db s)
    ]

pub trigger_collect-IsSound :
    (files : Files) (path : String) (now : ℕ) (db : SessionDb)
    → IsSound db
    → IsSound (trigger_collect files path now db).0
unfolding trigger_collect
trigger_collect-IsSound files path now db s =
    from (files.read path (λ id. get_session_incremental_state id db))
  where
    stored :
        (o : Option SessionDb)
        → SoundResult o
        → IsSound
            (elim o as (λ x. SessionDb × Bool) [ none ↦ (db, true) | some db' ↦ (db', true) ]).0
    stored none k = s
    stored (some d) k = k

    from :
        (r : FileRead)
        → IsSound
            (elim r as (λ x. SessionDb × Bool) [
              | unreadable ↦ (db, false)
              | nothing ↦ (db, true)
              | parsed file ↦ elim (store_file file now db) [
                | none ↦ (db, true)
                | some db' ↦ (db', true)
              ]
            ]).0
    from unreadable = s
    from nothing = s
    from (parsed file) = stored (store_file file now db) (store_file-IsSound file now db s)
