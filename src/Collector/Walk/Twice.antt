-- ===== src/Collector/Walk/Twice.antt =====
-- src/collector.rs, collect_all: a file that has not changed is not read again.
use mathlib.Core.Option
use ai_cli_session_db.Prelude.{
  ℕ, suc, String, List, Option, none, some, true, false, length, is_empty, str_eq, str_eq_refl,
  ==_iff, ◌≡◌, refl, sym, ap, ◌∙◌, inl, inr, Bool-cases, arith,
}
use ai_cli_session_db.Db.{SessionDb, Session}
use ai_cli_session_db.Db.Messages.{get_session_latest_timestamp}
use ai_cli_session_db.Db.Chains.{insert_continuation, open_chain, link, add_node}
use ai_cli_session_db.Db.Projects.{
  project_id, get_or_create_project_with_encoded, get_or_create_project-project_id,
}
use ai_cli_session_db.Db.Sessions.{
  SessionInput, coalesce, find_session, upserted, merge_session, new_session, upsert_session_full,
  get_session_file_mtime,
}
use ai_cli_session_db.Db.Sessions.Upsert.{upsert_session_full-upserted}
use ai_cli_session_db.Collector.{
  ParsedMessage, collect_session, number_messages, start_sequence, too_old,
}
use ai_cli_session_db.Collector.Path.{insert_session_relation}
use ai_cli_session_db.Collector.Path.Total.{project_id-any, upsert_session_full-some}
use ai_cli_session_db.Collector.Path.Counted.{find_session-insert_messages}
use ai_cli_session_db.Collector.Walk.{
  SessionMeta, ParseResult, parsed_session, Adapter, CollectResult, same_mtime, is_unchanged,
  or_else, meta_input, meta_relation, meta_continuation, store_meta, collect_meta,
}

relation-sessions :
    (a : Adapter) (meta : SessionMeta) (now : ℕ) (db : SessionDb)
    → (meta_relation a meta now db).sessions ≡ db.sessions
unfolding meta_relation insert_session_relation
relation-sessions a meta now db = ground arith

continuation-sessions :
    (meta : SessionMeta) (now : ℕ) (db : SessionDb)
    → (meta_continuation meta now db).sessions ≡ db.sessions
unfolding meta_continuation insert_continuation link open_chain add_node
continuation-sessions meta now db = ground arith

-- The row with its mtime.
abbrev HasMtime : String → ℕ → SessionDb → Type 0
HasMtime id t db =
    (row : Session) × (find_session id db.sessions ≡ some row) × (row.file_mtime ≡ some t)

collect_session-HasMtime :
    (id : String) (t now : ℕ) (ms : List ParsedMessage) (db : SessionDb)
    → HasMtime id t db
    → HasMtime id t (collect_session id now ms db).0
unfolding collect_session
collect_session-HasMtime id t now ms db (row, e, m) =
    let drops = too_old (get_session_latest_timestamp id db) in
    let msgs = number_messages now drops (start_sequence id db) ms in
    elim (Bool-cases (is_empty msgs)) [
      | inl f ↦ rw f (row, e, m)
      | inr f ↦ rw f (_, find_session-insert_messages id msgs now db row e, m)
    ]

upserted-mtime :
    (i : SessionInput) (count now id t : ℕ) (old : Option Session)
    → i.file_mtime ≡ some t
    → (upserted i count now id old).file_mtime ≡ some t
unfolding new_session merge_session
upserted-mtime i count now id t none e = e
upserted-mtime i count now id t (some s) e = ap (λ o. coalesce o s.file_mtime) e

upsert-HasMtime :
    (i : SessionInput) (t now : ℕ) (db done : SessionDb)
    → i.file_mtime ≡ some t
    → upsert_session_full i now db ≡ some done
    → HasMtime i.session_id t done
upsert-HasMtime i t now db done m e =
    let (count, c, f) = upsert_session_full-upserted i now db done i.session_id e in
    let old = find_session i.session_id db.sessions in
    (
      upserted i count now (suc db.last_session_id) old,
      f ∙ rw (str_eq_refl i.session_id) refl,
      upserted-mtime i count now (suc db.last_session_id) t old m,
    )

store_meta-HasMtime :
    (a : Adapter) (meta : SessionMeta) (p : ParseResult) (project t now : ℕ) (db : SessionDb)
    (r : CollectResult)
    → meta.file_mtime ≡ some t
    → project_id meta.project_path db.projects ≡ some project
    → HasMtime meta.id t (store_meta a meta p project now (db, r)).0
unfolding store_meta meta_input
store_meta-HasMtime a meta p project t now db r m named =
    let i = meta_input a meta p project in
    let (db1, e) =
      upsert_session_full-some i (length p.messages) now db refl
        (project_id-any meta.project_path project db.projects named) in
    let (row, f, k) = upsert-HasMtime i t now db db1 m e in
    let related = meta_relation a meta now db1 in
    let linked = meta_continuation meta now related in
    let kept : linked.sessions ≡ db1.sessions =
      continuation-sessions meta now related ∙ relation-sessions a meta now db1 in
    rw (e, store_meta)
      (collect_session-HasMtime meta.id t now p.messages linked
        (row, ap (find_session meta.id) kept ∙ f, k))

HasMtime-is_unchanged :
    (meta : SessionMeta) (t : ℕ) (db : SessionDb)
    → meta.file_mtime ≡ some t
    → HasMtime meta.id t db
    → is_unchanged meta db ≡ true
unfolding get_session_file_mtime Option.bind
HasMtime-is_unchanged meta t db m (row, e, k) =
    let stored : get_session_file_mtime meta.id db ≡ some t =
      ap (λ o. Option.bind o (λ (s : Session). s.file_mtime)) e ∙ k in
    ap (λ o. same_mtime o (get_session_file_mtime meta.id db)) m
    ∙ ap (same_mtime (some t)) stored
    ∙ (==_iff t t).1 refl

unchanged_stays :
    (a : Adapter) (later : ℕ) (meta : SessionMeta) (db : SessionDb) (r : CollectResult)
    → is_unchanged meta db ≡ true
    → collect_meta a later meta (db, r) ≡ (db, r)
unfolding collect_meta
unchanged_stays a later meta db r e = elim (Bool-cases (str_eq meta.project_path "")) [
  | inl f ↦ rw (f, collect_meta) refl
  | inr f ↦ rw (f, e, collect_meta) refl
]

pathless_stays :
    (a : Adapter) (later : ℕ) (meta : SessionMeta) (db : SessionDb) (r : CollectResult)
    → str_eq meta.project_path "" ≡ true
    → collect_meta a later meta (db, r) ≡ (db, r)
unfolding collect_meta
pathless_stays a later meta db r e = rw (e, collect_meta) refl

visited :
    (a : Adapter) (now t : ℕ) (meta : SessionMeta) (p : ParseResult) (db : SessionDb)
    (r : CollectResult)
    → meta.file_mtime ≡ some t
    → a.parse meta ≡ parsed_session p
    → str_eq meta.project_path "" ≡ false
    → is_unchanged meta db ≡ false
    → HasMtime meta.id t (collect_meta a now meta (db, r)).0
unfolding collect_meta
visited a now t meta p db r m e f g =
    let name = or_else meta.project_name meta.path_name in
    let (db1, project) =
      get_or_create_project_with_encoded name meta.project_path a.source meta.encoded_dir_name now
        db in
    let named : project_id meta.project_path db1.projects ≡ some project =
      get_or_create_project-project_id name meta.project_path a.source meta.project_path
        meta.encoded_dir_name now db
      ∙ rw (str_eq_refl meta.project_path) refl in
    rw (f, g, e, collect_meta) (store_meta-HasMtime a meta p project t now db1 r m named)

-- A session whose file has an mtime and is parsed is not written again while the mtime stays, though
-- messages of it may have been dropped or refused: a second visit changes neither the tables nor the
-- result.
pub collect_meta_twice :
    (a : Adapter) (now later t : ℕ) (meta : SessionMeta) (p : ParseResult) (db : SessionDb)
    (r : CollectResult)
    → meta.file_mtime ≡ some t
    → a.parse meta ≡ parsed_session p
    → collect_meta a later meta (collect_meta a now meta (db, r)) ≡ collect_meta a now meta (db, r)
collect_meta_twice a now later t meta p db r m e = elim (Bool-cases (str_eq meta.project_path "")) [
  | inl f ↦
      let none_written = pathless_stays a now meta db r f in
      ap (collect_meta a later meta) none_written
      ∙ pathless_stays a later meta db r f
      ∙ sym none_written
  | inr f ↦ elim (Bool-cases (is_unchanged meta db)) [
    | inl g ↦
        let none_written = unchanged_stays a now meta db r g in
        ap (collect_meta a later meta) none_written
        ∙ unchanged_stays a later meta db r g
        ∙ sym none_written
    | inr g ↦
        let (done, result) = collect_meta a now meta (db, r) in
        unchanged_stays a later meta done result
          (HasMtime-is_unchanged meta t done m (visited a now t meta p db r m e f g))
  ]
]
