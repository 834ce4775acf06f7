-- ===== src/Search/Talks.antt =====
-- src/search.rs, search_talks_fts: the search for the summaries of talks. The index is a parameter,
-- `none` where the statement cannot be prepared.
use ai_cli_session_db.Prelude.{
  ℕ, String, Text, List, [], ◌∷◌, ◌++◌, Option, none, some, true, retain, take, is_empty, ◌==◌,
  if◌then◌else◌,
}
use ai_cli_session_db.Prelude.Sorting.{sort_by}
use ai_cli_session_db.Db.{SessionDb, Session, Project, Talk}
use ai_cli_session_db.Db.Sessions.{find_session}
use ai_cli_session_db.Db.Listing.{find_project}
use ai_cli_session_db.Search.Fts.{escape_fts5_query}
use ai_cli_session_db.Search.Full.{Match, Fts}

pub record TalkSearchResult : Type 0 where
  pub id : ℕ
  pub session_id : String
  pub talk_id : String
  pub summary_l2 : Text
  pub summary_l3 : Option Text
  pub project_id : ℕ
  pub project_name : String
  pub snippet : Text
  pub score : ℕ
  pub created_at : ℕ

abbrev pub talk_result : Match → Talk → Session → Project → TalkSearchResult
talk_result x t s p = record {
  id = t.id;
  session_id = t.session_id;
  talk_id = t.talk_id;
  summary_l2 = t.summary_l2;
  summary_l3 = t.summary_l3;
  project_id = s.project_id;
  project_name = p.name;
  snippet = x.snippet;
  score = x.score;
  created_at = t.created_at;
}

abbrev pub join_talk : Option ℕ → SessionDb → Match → Talk → List TalkSearchResult
join_talk project_id db x t = elim (find_session t.session_id db.sessions) [
  | none ↦ []
  | some s ↦ elim (find_project s.project_id db.projects) [
    | none ↦ []
    | some p ↦
        if elim project_id [ none ↦ true | some id ↦ s.project_id == id ]
        then talk_result x t s p ∷ []
        else []
  ]
]

abbrev pub join_each : Option ℕ → SessionDb → Match → List Talk → List TalkSearchResult
join_each project_id db x [] = []
join_each project_id db x (t ∷ ts) = join_talk project_id db x t ++ join_each project_id db x ts

unfoldable pub join_talks : Option ℕ → SessionDb → List Match → List TalkSearchResult
join_talks project_id db [] = []
join_talks project_id db (x ∷ xs) =
    join_each project_id db x (retain (λ t. t.id == x.rowid) db.talks)
    ++ join_talks project_id db xs

unfoldable pub search_talks_fts :
    Option Fts → Text → ℕ → Option ℕ → SessionDb → Option (List TalkSearchResult)
search_talks_fts talks_fts query limit project_id db =
    let escaped = escape_fts5_query query in
    if is_empty escaped then some [] else elim talks_fts [
      | none ↦ some []
      | some fts ↦ elim (fts escaped) [
        | none ↦ none
        | some xs ↦ some (take limit (sort_by (λ r. r.score) (join_talks project_id db xs)))
      ]
    ]
