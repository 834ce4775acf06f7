-- ===== src/Collector/Walk/Sound.antt =====
-- src/collector.rs, collect_all: what a scan keeps true of the tables, and what it counts.
use ai_cli_session_db.Prelude.{
  ℕ, suc, ◌+◌, String, List, [], ◌∷◌, Option, none, some, length, is_empty, length-append, str_eq,
  ltb, ◌≡◌, refl, ap, ◌∙◌, inl, inr, Bool-cases, Option-cases, arith,
}
use ai_cli_session_db.Db.{SessionDb}
use ai_cli_session_db.Db.Messages.{insert_messages}
use ai_cli_session_db.Db.Messages.Insert.{insert_messages-length}
use ai_cli_session_db.Db.Chains.{insert_continuation, open_chain, link, add_node}
use ai_cli_session_db.Db.Chains.Linked.{Linked, insert_continuation-Linked}
use ai_cli_session_db.Db.Projects.{get_or_create_project_with_encoded}
use ai_cli_session_db.Db.Sessions.{upsert_session_full}
use ai_cli_session_db.Db.Sound.{
  IsSound, Untouched, IsSound-Untouched, project-Untouched, upsert_session-Untouched,
  insert_messages-IsSound,
}
use ai_cli_session_db.Collector.{
  ParsedMessage, collect_session, number_messages, start_sequence, too_old,
}
use ai_cli_session_db.Db.Messages.{get_session_latest_timestamp}
use ai_cli_session_db.Collector.Path.{insert_session_relation}
use ai_cli_session_db.Collector.Walk.{
  SessionMeta, ParseResult, ParseOutcome, parse_failed, no_session, parsed_session, Adapter,
  CollectResult, with_error, is_unchanged, or_else, meta_input, meta_relation, meta_continuation,
  with_messages, store_meta, collect_meta, collect_metas, collect_adapters, collect_all,
}

-- The tables are sound, and the result counts the messages that were added to the first ones.
abbrev pub IsCounted : ℕ → SessionDb × CollectResult → Type 0
IsCounted before (db, r) =
    IsSound db
    × (length db.messages ≡ before + r.messages_inserted)
    × (length r.new_message_ids ≡ r.messages_inserted)

IsCounted-Untouched :
    (before : ℕ) (db done : SessionDb) (r : CollectResult)
    → Untouched db done
    → IsCounted before (db, r)
    → IsCounted before (done, r)
IsCounted-Untouched before db done r u (s, n, k) =
    (IsSound-Untouched db done u s, ap length u.0 ∙ n, k)

relation-Untouched :
    (a : Adapter) (meta : SessionMeta) (now : ℕ) (db : SessionDb)
    → Untouched db (meta_relation a meta now db)
unfolding meta_relation insert_session_relation
relation-Untouched a meta now db = ground arith

continuation-messages :
    (meta : SessionMeta) (now : ℕ) (db : SessionDb)
    → (meta_continuation meta now db).messages ≡ db.messages
unfolding meta_continuation insert_continuation link open_chain add_node
continuation-messages meta now db = ground arith

continuation-Linked :
    (meta : SessionMeta) (now : ℕ) (db : SessionDb)
    → Linked db
    → Linked (meta_continuation meta now db)
unfolding meta_continuation
continuation-Linked meta now db h = from meta.continuation_from
  where
    from :
        (o : Option String)
        → Linked (elim o [
          | none ↦ db
          | some prev ↦ elim (insert_continuation meta.id prev now db) [ none ↦ db | some d ↦ d ]
        ])
    from none = h
    from (some prev) = let (done, f, k) = insert_continuation-Linked meta.id prev now db h in rw f k

continuation-IsCounted :
    (before : ℕ) (meta : SessionMeta) (now : ℕ) (db : SessionDb) (r : CollectResult)
    → IsCounted before (db, r)
    → IsCounted before (meta_continuation meta now db, r)
continuation-IsCounted before meta now db r ((l, u), n, k) =
    let same = continuation-messages meta now db in
    ((continuation-Linked meta now db l, rw same u), ap length same ∙ n, k)

with_messages-counts :
    (inserted : ℕ) (ids : List ℕ) (r : CollectResult)
    → length ids ≡ inserted
    → length r.new_message_ids ≡ r.messages_inserted
    → ((with_messages inserted ids r).messages_inserted ≡ r.messages_inserted + inserted)
      × (length (with_messages inserted ids r).new_message_ids
          ≡ (with_messages inserted ids r).messages_inserted)
with_messages-counts inserted ids r e k = elim (Bool-cases (ltb 0 inserted)) [
  | inl f ↦ rw f (refl, length-append r.new_message_ids ids ∙ omega (arith, e, k))
  | inr f ↦ rw f (ground arith, k)
]

collect_session-IsCounted :
    (before : ℕ) (id : String) (now : ℕ) (ms : List ParsedMessage) (db : SessionDb)
    (r : CollectResult)
    → IsCounted before (db, r)
    → let (done, inserted, ids) = collect_session id now ms db in
      IsCounted before (done, with_messages inserted ids r)
unfolding collect_session
collect_session-IsCounted before id now ms db r (s, n, k) =
    let drops = too_old (get_session_latest_timestamp id db) in
    let msgs = number_messages now drops (start_sequence id db) ms in
    elim (Bool-cases (is_empty msgs)) [
      | inl e ↦ rw e (s, n, k)
      | inr e ↦
          let (done, inserted, ids) = insert_messages id msgs now db in
          let (grown, listed) = insert_messages-length id msgs now db in
          let (more, counted) = with_messages-counts inserted ids r listed k in
          rw e (insert_messages-IsSound id msgs now db s, grown ∙ omega (arith, n, more), counted)
    ]

store_meta-IsCounted :
    (before : ℕ) (a : Adapter) (meta : SessionMeta) (p : ParseResult) (project now : ℕ)
    (db : SessionDb) (r : CollectResult)
    → IsCounted before (db, r)
    → IsCounted before (store_meta a meta p project now (db, r))
unfolding store_meta
store_meta-IsCounted before a meta p project now db r h =
    elim (Option-cases (upsert_session_full (meta_input a meta p project) now db)) [
      | inl e ↦ rw (e, store_meta) h
      | inr (db1, e) ↦
          let written =
            IsCounted-Untouched before db db1 r
              (upsert_session-Untouched (meta_input a meta p project) now db db1 e) h in
          let related =
            IsCounted-Untouched before db1 (meta_relation a meta now db1) r
              (relation-Untouched a meta now db1) written in
          rw (e, store_meta)
            (collect_session-IsCounted before meta.id now p.messages
              (meta_continuation meta now (meta_relation a meta now db1)) r
              (continuation-IsCounted before meta now (meta_relation a meta now db1) r related))
    ]

collect_meta-IsCounted :
    (before : ℕ) (a : Adapter) (now : ℕ) (meta : SessionMeta) (db : SessionDb) (r : CollectResult)
    → IsCounted before (db, r)
    → IsCounted before (collect_meta a now meta (db, r))
unfolding collect_meta
collect_meta-IsCounted before a now meta db r h = elim (Bool-cases (str_eq meta.project_path "")) [
  | inl e ↦ rw (e, collect_meta) h
  | inr e ↦ elim (Bool-cases (is_unchanged meta db)) [
    | inl f ↦ rw (e, f, collect_meta) h
    | inr f ↦ rw (e, f, collect_meta) (from (a.parse meta))
  ]
]
  where
    name : String
    name = or_else meta.project_name meta.path_name

    created : SessionDb × ℕ
    created =
        get_or_create_project_with_encoded name meta.project_path a.source meta.encoded_dir_name now
          db

    made : IsCounted before (created.0, r)
    made =
        IsCounted-Untouched before db created.0 r
          (project-Untouched name meta.project_path a.source meta.encoded_dir_name now db) h

    from :
        (o : ParseOutcome)
        → IsCounted before (elim o as (λ x. SessionDb × CollectResult) [
          | parse_failed ↦ (created.0, with_error r)
          | no_session ↦ (created.0, r)
          | parsed_session p ↦ store_meta a meta p created.1 now (created.0, r)
        ])
    from parse_failed = made
    from no_session = made
    from (parsed_session p) = store_meta-IsCounted before a meta p created.1 now created.0 r made

collect_metas-IsCounted :
    (before : ℕ) (a : Adapter) (now : ℕ) (ms : List SessionMeta) (s : SessionDb × CollectResult)
    → IsCounted before s
    → IsCounted before (collect_metas a now ms s)
unfolding collect_metas
collect_metas-IsCounted before a now [] s h = h
collect_metas-IsCounted before a now (m ∷ ms) (db, r) h =
    collect_metas-IsCounted before a now ms (collect_meta a now m (db, r))
      (collect_meta-IsCounted before a now m db r h)

collect_adapters-IsCounted :
    (before now : ℕ) (adapters : List Adapter) (db : SessionDb) (r : CollectResult)
    → IsCounted before (db, r)
    → IsCounted before (collect_adapters now adapters (db, r))
unfolding collect_adapters
collect_adapters-IsCounted before now [] db r h = h
collect_adapters-IsCounted before now (a ∷ others) db r h = elim (Option-cases a.sessions) [
  | inl e ↦
      rw (e, collect_adapters) (collect_adapters-IsCounted before now others db (with_error r) h)
  | inr (ms, e) ↦
      let done = collect_metas a now ms (db, r) in
      rw (e, collect_adapters)
        (collect_adapters-IsCounted before now others done.0
          (record (done.1) { projects_scanned = suc done.1.projects_scanned })
          (collect_metas-IsCounted before a now ms (db, r) h))
]

-- Whatever the adapters list and parse, and whatever fails, a scan keeps the uuids of messages
-- distinct and the continuation chains linked, and adds exactly as many messages to the table as its
-- result says, which has as many new ids.
pub collect_all-IsCounted :
    (now : ℕ) (adapters : List Adapter) (db : SessionDb)
    → IsSound db
    → IsCounted (length db.messages) (collect_all now adapters db)
unfolding collect_all
collect_all-IsCounted now adapters db s =
    collect_adapters-IsCounted (length db.messages) now adapters db _ (s, omega arith, refl)
