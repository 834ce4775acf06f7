-- ===== src/Db/Listing.antt =====
-- src/db.rs, the reads of projects and sessions, the summaries of talks and the relations between
-- sessions. Rows that ORDER BY leaves equal have no promised order.
pub mod Prefix
use ai_cli_session_db.Prelude.{
  ℕ, suc, ◌+◌, max, String, Text, List, [], ◌∷◌, ◌++◌, Option, none, some, Bool, true, false, not,
  ◌&&◌, ◌||◌, map, reverse, any, retain, take, length, str_eq, codes, ltb, leb, ◌==◌, if◌then◌else◌,
}
use ai_cli_session_db.Prelude.Sorting.{sort_by}
use ai_cli_session_db.Db.{SessionDb, Session, Project, Talk, SessionRelation}
use ai_cli_session_db.Db.Messages.{page, max_of}
use ai_cli_session_db.Db.Sessions.{find_session, update_session}
use ai_cli_session_db.Search.Like.{LikeToken, literal, any_text, any_char, percent, underscore}

-- `ORDER BY … DESC`.
abbrev pub newest_first : {A : Type 0} → (A → ℕ) → List A → List A
newest_first key rows = reverse (sort_by key rows)

-- `query_row(…).optional()`: the first row.
abbrev pub first : {A : Type 0} → List A → Option A
first [] = none
first (x ∷ xs) = some x

unfoldable pub list_projects : SessionDb → List Project
list_projects db = newest_first (λ p. p.updated_at) db.projects

pub record ProjectWithStats : Type 0 where
  pub id : ℕ
  pub name : String
  pub path : String
  pub session_count : ℕ
  pub message_count : ℕ
  pub last_active : Option ℕ

abbrev pub sum : List ℕ → ℕ
sum [] = 0
sum (n ∷ ns) = n + sum ns

abbrev pub sessions_of : ℕ → SessionDb → List Session
sessions_of id db = retain (λ s. s.project_id == id) db.sessions

-- One group of the join; `max_of` is MAX, which is NULL where there is no session.
unfoldable pub project_stats : SessionDb → Project → ProjectWithStats
project_stats db p =
    let ss = sessions_of p.id db in
    record {
      id = p.id;
      name = p.name;
      path = p.path;
      session_count = length ss;
      message_count = sum (map (λ s. s.message_count) ss);
      last_active =
          max_of
            (map (λ (s : Session). elim s.last_message_at [ none ↦ s.updated_at | some t ↦ t ]) ss);
    }

-- `NULLS LAST`: a project without sessions counts below every time.
abbrev pub activity : ProjectWithStats → ℕ
activity p = elim p.last_active [ none ↦ 0 | some t ↦ suc t ]

unfoldable pub list_projects_with_stats : ℕ → ℕ → SessionDb → List ProjectWithStats
unfolding project_stats
list_projects_with_stats limit offset db =
    page limit offset (newest_first activity (map (project_stats db) db.projects))

unfoldable pub find_project : ℕ → List Project → Option Project
find_project id [] = none
find_project id (p ∷ ps) = if p.id == id then some p else find_project id ps

unfoldable pub get_project : ℕ → SessionDb → Option Project
get_project id db = find_project id db.projects

unfoldable pub get_project_by_path : String → SessionDb → Option Project
get_project_by_path path db = first (retain (λ p. str_eq p.path path) db.projects)

unfoldable pub list_sessions : ℕ → SessionDb → List Session
list_sessions project_id db = newest_first (λ s. s.updated_at) (sessions_of project_id db)

unfoldable pub get_session : String → SessionDb → Option Session
get_session id db = find_session id db.sessions

unfoldable pub get_sessions : Option ℕ → ℕ → SessionDb → List Session
get_sessions none limit db = take limit (newest_first (λ s. s.updated_at) db.sessions)
get_sessions (some pid) limit db =
    take limit (newest_first (λ s. s.updated_at) (sessions_of pid db))

-- `LIKE` without ESCAPE: the ASCII letters are compared without their case.
abbrev pub fold_case : ℕ → ℕ
fold_case c = if leb 65 c && leb c 90 then c + 32 else c

abbrev pub pattern_tokens : Text → List LikeToken
pattern_tokens [] = []
pattern_tokens (c ∷ cs) =
    (if c == percent then any_text else if c == underscore then any_char else literal c)
    ∷ pattern_tokens cs

unfoldable pub like : List LikeToken → Text → Bool
like [] [] = true
like [] (c ∷ cs) = false
like (literal p ∷ ts) [] = false
like (literal p ∷ ts) (c ∷ cs) = (fold_case p == fold_case c) && like ts cs
like (any_char ∷ ts) [] = false
like (any_char ∷ ts) (c ∷ cs) = like ts cs
like (any_text ∷ ts) [] = like ts []
like (any_text ∷ ts) (c ∷ cs) = like ts (c ∷ cs) || like (any_text ∷ ts) cs

abbrev pub id_like : Text → Session → Bool
id_like pattern s = like (pattern_tokens pattern) (codes s.session_id)

-- A prefix, or else a suffix. Which of several rows LIMIT 1 takes is not promised.
unfoldable pub resolve_session_id : Text → SessionDb → Option String
resolve_session_id prefix db =
    elim (first (retain (id_like (prefix ++ percent ∷ [])) db.sessions)) [
      | some s ↦ some s.session_id
      | none ↦ elim (first (retain (id_like (percent ∷ prefix)) db.sessions)) [
        | some s ↦ some s.session_id
        | none ↦ none
      ]
    ]

unfoldable pub search_sessions_by_prefix : Text → ℕ → SessionDb → List Session
search_sessions_by_prefix prefix limit db =
    take limit
      (newest_first (λ s. s.updated_at) (retain (id_like (prefix ++ percent ∷ [])) db.sessions))

pub record Stats : Type 0 where
  pub project_count : ℕ
  pub session_count : ℕ
  pub message_count : ℕ

unfoldable pub get_stats : SessionDb → Stats
get_stats db = record {
  project_count = length db.projects;
  session_count = length db.sessions;
  message_count = length db.messages;
}

unfoldable pub count_sessions_without_cwd : SessionDb → ℕ
count_sessions_without_cwd db =
    length (retain (λ (s : Session). elim s.cwd [ none ↦ true | some c ↦ str_eq c "" ]) db.sessions)

-- `upsert_session`: only the identifiers; the other columns have their defaults.
unfoldable pub upsert_session : String → ℕ → ℕ → SessionDb → Option SessionDb
upsert_session session_id project_id now db = elim (find_session session_id db.sessions) [
  | some old ↦ some (update_session session_id (λ s. record s { updated_at = now }) db)
  | none ↦
      if db.foreign_keys && not (any (λ (p : Project). p.id == project_id) db.projects)
      then none
      else some (record db {
        sessions =
            db.sessions
            ++ record {
              id = suc db.last_session_id;
              session_id = session_id;
              project_id = project_id;
              message_count = 0;
              last_message_at = none;
              cwd = none;
              model = none;
              channel = none;
              file_mtime = none;
              file_size = none;
              file_offset = some 0;
              file_inode = none;
              meta = none;
              session_type = none;
              source = none;
              created_at = now;
              updated_at = now;
            }
              ∷ [];
        last_session_id = suc db.last_session_id;
      })
]

abbrev pub children_of : String → List SessionRelation → List SessionRelation
children_of parent rels = retain (λ r. str_eq r.parent_session_id parent) rels

abbrev pub parents_of : String → List SessionRelation → List SessionRelation
parents_of child rels = retain (λ r. str_eq r.child_session_id child) rels

unfoldable pub get_children_sessions : String → SessionDb → List SessionRelation
get_children_sessions parent db =
    sort_by (λ r. r.created_at) (children_of parent db.session_relations)

unfoldable pub get_parent_session : String → SessionDb → Option SessionRelation
get_parent_session child db = first (parents_of child db.session_relations)
