-- ===== src/Db/Sessions/Upsert.antt =====
-- src/db.rs: what upsert_session_full does to the rows of sessions.
use mathlib.Core.Option
use ai_cli_session_db.Prelude.{
  ℕ, suc, String, List, [], ◌∷◌, ◌++◌, Option, none, some, not, ◌&&◌, ◌≡◌, refl, sym, ap, ◌∙◌, inl,
  inr, map, any, str_eq, str_eq_iff, if◌then◌else◌, ◌==◌, Bool-cases, Option-cases, arith,
}
use ai_cli_session_db.Db.{SessionDb, Session, Project}
use ai_cli_session_db.Db.Sessions.{
  SessionInput, find_session, update_session, coalesce, merge_session, new_session, upserted,
  upsert_session_full,
}

-- What the other lookups see of an update that keeps the key.
pub find_session-update :
    (id other : String) (f : Session → Session) (ss : List Session)
    → ((s : Session) → (f s).session_id ≡ s.session_id)
    → find_session other (map (λ s. if str_eq s.session_id id then f s else s) ss)
      ≡ (if str_eq id other then Option.map f (find_session other ss) else find_session other ss)
unfolding find_session
find_session-update id other f [] h = ground arith
find_session-update id other f (s ∷ ss) h = ground (
  arith,
  h s,
  str_eq_iff s.session_id id,
  str_eq_iff s.session_id other,
  str_eq_iff id other,
  find_session-update id other f ss h,
)

find_session-append :
    (other : String) (ss : List Session) (n : Session)
    → find_session other (ss ++ n ∷ []) ≡ elim (find_session other ss) [
      | some s ↦ some s
      | none ↦ if str_eq n.session_id other then some n else none
    ]
unfolding find_session
find_session-append other [] n = refl
find_session-append other (s ∷ ss) n = ground (arith, find_session-append other ss n)

written_row :
    (i : SessionInput) (count now : ℕ) (db : SessionDb) (other : String) (old : Session)
    → find_session i.session_id db.sessions ≡ some old
    → find_session other (update_session i.session_id (merge_session i count now) db).sessions ≡ (
        if str_eq i.session_id other
        then some (merge_session i count now old)
        else find_session other db.sessions)
unfolding merge_session
written_row i count now db other old f =
    find_session-update i.session_id other (merge_session i count now) db.sessions (λ s. refl)
    ∙ elim (Bool-cases (str_eq i.session_id other)) [
      | inl e ↦
          let there =
            ap (λ k. find_session k db.sessions) (sym ((str_eq_iff i.session_id other).0 e)) ∙ f in
          rw (e, there) refl
      | inr e ↦ rw e refl
    ]

added_row :
    (i : SessionInput) (count now id : ℕ) (db : SessionDb) (other : String)
    → find_session i.session_id db.sessions ≡ none
    → find_session other (db.sessions ++ new_session i count now id ∷ []) ≡ (
        if str_eq i.session_id other
        then some (new_session i count now id)
        else find_session other db.sessions)
unfolding new_session
added_row i count now id db other f =
    find_session-append other db.sessions (new_session i count now id)
    ∙ elim (Bool-cases (str_eq i.session_id other)) [
      | inl e ↦
          let there =
            ap (λ k. find_session k db.sessions) (sym ((str_eq_iff i.session_id other).0 e)) ∙ f in
          rw (there, e) refl
      | inr e ↦ elim (Option-cases (find_session other db.sessions)) [
        | inl g ↦ rw (g, e) refl
        | inr (s, g) ↦ rw (g, e) refl
      ]
    ]

abbrev some_or : SessionDb → Option SessionDb → SessionDb
some_or db none = db
some_or db (some d) = d

-- The row of the session is what the statement makes of the old one; the others are as before.
pub upsert_session_full-upserted :
    (i : SessionInput) (now : ℕ) (db done : SessionDb) (other : String)
    → upsert_session_full i now db ≡ some done
    → (count : ℕ) × (i.message_count ≡ some count)
      × (find_session other done.sessions ≡ (
          if str_eq i.session_id other
          then some (
              upserted i count now (suc db.last_session_id) (find_session i.session_id db.sessions))
          else find_session other db.sessions))
unfolding upsert_session_full
upsert_session_full-upserted i now db done other e = elim (Option-cases i.message_count) [
  | inl c ↦ absurd (ground arith)
  | inr (count, c) ↦ elim (Option-cases (find_session i.session_id db.sessions)) [
    | inr (old, f) ↦
        let same : some (update_session i.session_id (merge_session i count now) db) ≡ some done =
          rw (c, f, upsert_session_full) at e in
        (
          count,
          c,
          ap (λ o. find_session other (some_or db o).sessions) (sym same)
              ∙ written_row i count now db other old f
              ∙ ap
                  (λ o.
                    if str_eq i.session_id other
                    then some (upserted i count now (suc db.last_session_id) o)
                    else find_session other db.sessions)
                  (sym f),
        )
    | inl f ↦
        elim (Bool-cases
          (db.foreign_keys && not (any (λ (p : Project). p.id == i.project_id) db.projects))) [
            | inl g ↦ absurd (ground (arith, c, f, g))
            | inr g ↦
                let same = rw (c, f, upsert_session_full) at e in
                let rows : db.sessions ++ new_session i count now (suc db.last_session_id) ∷ []
                    ≡ done.sessions =
                  ap (λ o. (some_or db o).sessions) (rw g at same) in
                (
                  count,
                  c,
                  ap (find_session other) (sym rows)
                      ∙ added_row i count now (suc db.last_session_id) db other f
                      ∙ ap
                          (λ o.
                            if str_eq i.session_id other
                            then some (upserted i count now (suc db.last_session_id) o)
                            else find_session other db.sessions)
                          (sym f),
                )
          ]
  ]
]

-- A column takes the value that was given, and without one keeps the old.
abbrev pub Coalesced : {A : Type 0} → Option A → Option A → Option A → Type 0
Coalesced none old now = now ≡ old
Coalesced (some given) old now = now ≡ some given

coalesce-Coalesced : {A : Type 0} (given old : Option A) → Coalesced given old (coalesce given old)
coalesce-Coalesced none old = refl
coalesce-Coalesced (some a) old = refl

-- What an upsert makes of a row.
pub record IsMerged (i : SessionInput) (count now : ℕ) (old s : Session) : Type 0 where
  pub id : s.id ≡ old.id
  pub session_id : s.session_id ≡ old.session_id
  pub project_id : s.project_id ≡ old.project_id
  pub created_at : s.created_at ≡ old.created_at
  pub last_message_at : s.last_message_at ≡ old.last_message_at
  pub message_count : s.message_count ≡ count
  pub updated_at : s.updated_at ≡ now
  pub cwd : Coalesced i.cwd old.cwd s.cwd
  pub model : Coalesced i.model old.model s.model
  pub channel : Coalesced i.channel old.channel s.channel
  pub file_mtime : Coalesced i.file_mtime old.file_mtime s.file_mtime
  pub file_size : Coalesced i.file_size old.file_size s.file_size
  pub file_offset : Coalesced i.file_offset old.file_offset s.file_offset
  pub file_inode : Coalesced i.file_inode old.file_inode s.file_inode
  pub meta : Coalesced i.meta old.meta s.meta
  pub session_type : Coalesced i.session_type old.session_type s.session_type
  pub source : Coalesced i.source old.source s.source

-- A row that an upsert creates.
pub record IsCreated (i : SessionInput) (count now : ℕ) (s : Session) : Type 0 where
  pub session_id : s.session_id ≡ i.session_id
  pub project_id : s.project_id ≡ i.project_id
  pub created_at : s.created_at ≡ now
  pub last_message_at : s.last_message_at ≡ none
  pub message_count : s.message_count ≡ count
  pub updated_at : s.updated_at ≡ now
  pub cwd : s.cwd ≡ i.cwd
  pub model : s.model ≡ i.model
  pub channel : s.channel ≡ i.channel
  pub file_mtime : s.file_mtime ≡ i.file_mtime
  pub file_size : s.file_size ≡ i.file_size
  pub file_offset : s.file_offset ≡ i.file_offset
  pub file_inode : s.file_inode ≡ i.file_inode
  pub meta : s.meta ≡ i.meta
  pub session_type : s.session_type ≡ i.session_type
  pub source : s.source ≡ i.source

abbrev pub IsWritten : SessionInput → ℕ → ℕ → Option Session → Session → Type 0
IsWritten i count now none s = IsCreated i count now s
IsWritten i count now (some old) s = IsMerged i count now old s

upserted-IsWritten :
    (i : SessionInput) (count now id : ℕ) (old : Option Session)
    → IsWritten i count now old (upserted i count now id old)
unfolding merge_session new_session
upserted-IsWritten i count now id none = record {
  session_id = refl;
  project_id = refl;
  created_at = refl;
  last_message_at = refl;
  message_count = refl;
  updated_at = refl;
  cwd = refl;
  model = refl;
  channel = refl;
  file_mtime = refl;
  file_size = refl;
  file_offset = refl;
  file_inode = refl;
  meta = refl;
  session_type = refl;
  source = refl;
}
upserted-IsWritten i count now id (some old) = record {
  id = refl;
  session_id = refl;
  project_id = refl;
  created_at = refl;
  last_message_at = refl;
  message_count = refl;
  updated_at = refl;
  cwd = coalesce-Coalesced i.cwd old.cwd;
  model = coalesce-Coalesced i.model old.model;
  channel = coalesce-Coalesced i.channel old.channel;
  file_mtime = coalesce-Coalesced i.file_mtime old.file_mtime;
  file_size = coalesce-Coalesced i.file_size old.file_size;
  file_offset = coalesce-Coalesced i.file_offset old.file_offset;
  file_inode = coalesce-Coalesced i.file_inode old.file_inode;
  meta = coalesce-Coalesced i.meta old.meta;
  session_type = coalesce-Coalesced i.session_type old.session_type;
  source = coalesce-Coalesced i.source old.source;
}

-- An upsert that succeeds had a count, which the row of the session has afterwards. A row that was
-- there keeps its project, its creation and its last message, and of the other columns each that the
-- input gives is written and each that it does not give is kept; where there was none, the row is
-- that of the input. The row of every other session, and whether it has one, is as before.
pub upsert_session_full-find :
    (i : SessionInput) (now : ℕ) (db done : SessionDb) (other : String)
    → upsert_session_full i now db ≡ some done
    → (count : ℕ) × (row : Session) × (i.message_count ≡ some count)
      × IsWritten i count now (find_session i.session_id db.sessions) row
      × (find_session other done.sessions
          ≡ (if str_eq i.session_id other then some row else find_session other db.sessions))
upsert_session_full-find i now db done other e =
    let (count, c, f) = upsert_session_full-upserted i now db done other e in
    let old = find_session i.session_id db.sessions in
    let id = suc db.last_session_id in
    (count, upserted i count now id old, c, upserted-IsWritten i count now id old, f)
