-- ===== src/Search/Full/Rows.antt =====
-- src/search.rs: the rows that a search joins, filters and orders.
use ai_cli_session_db.Prelude.{
  ℕ, ◌≤◌, List, [], ◌∷◌, Option, none, some, Bool, true, ◌≡◌, refl, sym, ap, ◌∙◌, inl, inr, Has,
  Has-reverse, Has-reverse_of, leb, ◌==◌, ==_iff, Option-cases, arith,
}
use ai_cli_session_db.Prelude.Sorting.{sort_by, Has-sort_by, Has-sort_by_of}
use ai_cli_session_db.Db.{SessionDb, Message}
use ai_cli_session_db.Db.Sessions.{find_session}
use ai_cli_session_db.Db.Listing.{find_project}
use ai_cli_session_db.Search.Full.Scope.{begins_with_one, in_session_ids_lem}
use ai_cli_session_db.Search.Full.{
  SearchOrderBy, score, time_desc, time_asc, SearchResult, SearchOptions, Row, join_row, in_scope,
  join_messages, order_results, order_rows,
}

-- The row joins a message of the database with its session and project.
pub record IsJoined (db : SessionDb) (r : Row) : Type 0 where
  pub message : Has r.message db.messages
  pub session : find_session r.message.session_id db.sessions ≡ some r.session
  pub project : find_project r.session.project_id db.projects ≡ some r.project

-- The row is in the project, between the times and in one of the sessions that are asked for.
pub record IsInScope (opts : SearchOptions) (r : Row) : Type 0 where
  pub project : (id : ℕ) → opts.project_id ≡ some id → r.session.project_id ≡ id
  pub start : (t : ℕ) → opts.start_timestamp ≡ some t → t ≤ r.message.timestamp
  pub end : (t : ℕ) → opts.end_timestamp ≡ some t → r.message.timestamp ≤ t
  pub named : begins_with_one opts.session_ids r.message.session_id ≡ true

pub in_scope-IsInScope :
    (opts : SearchOptions) (r : Row) → in_scope opts r ≡ true → IsInScope opts r
unfolding in_scope
in_scope-IsInScope opts r e = record {
  project = λ id q. ground (arith, e, q);
  start = λ t q. ground (arith, e, q);
  end = λ t q. ground (arith, e, q);
  named = sym (in_session_ids_lem opts.session_ids r.message.session_id) ∙ ground (arith, e);
}

passes :
    (o : Option ℕ) (p : ℕ → Bool)
    → ((t : ℕ) → o ≡ some t → p t ≡ true)
    → elim o [ none ↦ true | some t ↦ p t ] ≡ true
passes none p h = refl
passes (some t) p h = h t refl

le→leb : (a b : ℕ) → a ≤ b → leb a b ≡ true
le→leb a b h = ground arith

pub IsInScope-in_scope :
    (opts : SearchOptions) (r : Row) → IsInScope opts r → in_scope opts r ≡ true
unfolding in_scope
IsInScope-in_scope opts r s =
    let t = r.message.timestamp in
    rw
      (
        passes opts.project_id (λ id. r.session.project_id == id)
            (λ id q. (==_iff r.session.project_id id).1 (s.project id q)),
        passes opts.start_timestamp (λ a. leb a t) (λ a q. le→leb a t (s.start a q)),
        passes opts.end_timestamp (λ b. leb t b) (λ b q. le→leb t b (s.end b q)),
      )
      (in_session_ids_lem opts.session_ids r.message.session_id ∙ s.named)

-- The join of one message.
join_row-joined :
    (db : SessionDb) (m : Message) (r : Row)
    → join_row db m ≡ some r
    → (r.message ≡ m)
      × (find_session m.session_id db.sessions ≡ some r.session)
      × (find_project r.session.project_id db.projects ≡ some r.project)
join_row-joined db m r e = ground (arith, e)

Has-join_messages :
    (db : SessionDb) (ms : List Message) (r : Row)
    → Has r (join_messages db ms)
    → Has r.message ms × (join_row db r.message ≡ some r)
unfolding join_messages
Has-join_messages db [] r h = absurd h
Has-join_messages db (m ∷ ms) r h = elim (Option-cases (join_row db m)) [
  | inl e ↦ let (n, f) = Has-join_messages db ms r (rw (e, join_messages) at h) in (inr n, f)
  | inr (q, e) ↦ elim (rw (e, join_messages) at h) [
    | inl same ↦
        let own = ap (λ (x : Row). x.message) same ∙ (join_row-joined db m q e).0 in
        (inl own, ap (join_row db) own ∙ e ∙ ap some (sym same))
    | inr n ↦ let (k, f) = Has-join_messages db ms r n in (inr k, f)
  ]
]

Has-join_messages_of :
    (db : SessionDb) (ms : List Message) (r : Row)
    → Has r.message ms
    → join_row db r.message ≡ some r
    → Has r (join_messages db ms)
unfolding join_messages
Has-join_messages_of db [] r h e = absurd h
Has-join_messages_of db (m ∷ ms) r (inl q) e =
    rw (sym (ap (join_row db) q) ∙ e, join_messages) (inl refl)
Has-join_messages_of db (m ∷ ms) r (inr n) e = elim (Option-cases (join_row db m)) [
  | inl f ↦ rw (f, join_messages) (Has-join_messages_of db ms r n e)
  | inr (q, f) ↦ rw (f, join_messages) (inr (Has-join_messages_of db ms r n e))
]

pub join_messages-IsJoined :
    (db : SessionDb) (r : Row) → Has r (join_messages db db.messages) → IsJoined db r
join_messages-IsJoined db r h =
    let (m, e) = Has-join_messages db db.messages r h in
    let (own, s, p) = join_row-joined db r.message r e in
    record { message = m; session = s; project = p }

pub IsJoined-join_messages :
    (db : SessionDb) (r : Row) → IsJoined db r → Has r (join_messages db db.messages)
IsJoined-join_messages db r j =
    Has-join_messages_of db db.messages r j.message (rw (j.session, j.project, join_row) refl)

pub Has-order_results :
    (o : SearchOrderBy) (x : SearchResult) (rs : List SearchResult)
    → Has x (order_results o rs)
    → Has x rs
Has-order_results score x rs h = Has-sort_by (λ r. r.score) x rs h
Has-order_results time_desc x rs h =
    Has-sort_by (λ r. r.timestamp) x rs (Has-reverse x (sort_by (λ r. r.timestamp) rs) h)
Has-order_results time_asc x rs h = Has-sort_by (λ r. r.timestamp) x rs h

abbrev pub time : Row → ℕ
time r = r.message.timestamp

pub Has-order_rows :
    (o : SearchOrderBy) (x : Row) (rs : List Row) → Has x (order_rows o rs) → Has x rs
Has-order_rows score x rs h = Has-sort_by time x rs (Has-reverse x (sort_by time rs) h)
Has-order_rows time_desc x rs h = Has-sort_by time x rs (Has-reverse x (sort_by time rs) h)
Has-order_rows time_asc x rs h = Has-sort_by time x rs h

pub Has-order_rows_of :
    (o : SearchOrderBy) (x : Row) (rs : List Row) → Has x rs → Has x (order_rows o rs)
Has-order_rows_of score x rs h = Has-reverse_of x (sort_by time rs) (Has-sort_by_of time x rs h)
Has-order_rows_of time_desc x rs h = Has-reverse_of x (sort_by time rs) (Has-sort_by_of time x rs h)
Has-order_rows_of time_asc x rs h = Has-sort_by_of time x rs h
