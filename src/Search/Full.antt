-- ===== src/Search/Full.antt =====
-- src/search.rs, the search for messages: the full-text index first and, in a project, LIKE for the
-- rest. What the FTS5 engine answers to a query, the rows of its index that match with their snippets
-- and scores, is the parameter `fts`, whose `none` is an error.
pub mod Scope
pub mod Rows
pub mod Complete
use ai_cli_session_db.Prelude.{
  ℕ, ◌-◌, String, Text, List, [], ◌∷◌, ◌++◌, Option, none, some, Bool, true, false, not, ◌&&◌, map,
  retain, any, take, length, reverse, codes, leb, ◌==◌, if◌then◌else◌,
}
use ai_cli_session_db.Prelude.Sorting.{sort_by}
use ai_cli_session_db.Db.{SessionDb, Session, Project, Message, MessageType}
use ai_cli_session_db.Db.Sessions.{find_session}
use ai_cli_session_db.Db.Listing.{find_project, like, pattern_tokens}
use ai_cli_session_db.Search.Like.{escape_like_pattern, like_tokens, percent}
use ai_cli_session_db.Search.Fts.{escape_fts5_query}

pub data SearchOrderBy : Type 0 where
  score time_desc time_asc : SearchOrderBy

-- The score of the index is a number that is only handed on; in the source it is a real number.
pub record SearchResult : Type 0 where
  pub message_id : ℕ
  pub session_id : String
  pub project_id : ℕ
  pub project_name : String
  pub msg_type : MessageType
  pub content_full : Text
  pub snippet : Text
  pub score : ℕ
  pub timestamp : ℕ

-- A row of `messages_fts` that matches.
pub record Match : Type 0 where
  pub rowid : ℕ
  pub snippet : Text
  pub score : ℕ

-- The arguments behind the query and the limit.
pub record SearchOptions : Type 0 where
  pub project_id : Option ℕ
  pub order_by : SearchOrderBy
  pub start_timestamp : Option ℕ
  pub end_timestamp : Option ℕ
  pub session_ids : List Text

-- A message with its session and project: the JOINs.
pub record Row : Type 0 where
  pub message : Message
  pub session : Session
  pub project : Project

abbrev pub join_row : SessionDb → Message → Option Row
join_row db m = elim (find_session m.session_id db.sessions) [
  | none ↦ none
  | some s ↦ elim (find_project s.project_id db.projects) [
    | none ↦ none
    | some p ↦ some (record { message = m; session = s; project = p })
  ]
]

-- The clauses on the project, the times and the sessions; no prefix is no clause.
abbrev pub in_session_ids : List Text → String → Bool
in_session_ids [] id = true
in_session_ids (p ∷ ps) id =
    any (λ q. like (like_tokens false (escape_like_pattern q ++ percent ∷ [])) (codes id)) (p ∷ ps)

unfoldable pub in_scope : SearchOptions → Row → Bool
in_scope opts r =
    (elim opts.project_id [ none ↦ true | some id ↦ r.session.project_id == id ])
    && (elim opts.start_timestamp [ none ↦ true | some t ↦ leb t r.message.timestamp ])
    && (elim opts.end_timestamp [ none ↦ true | some t ↦ leb r.message.timestamp t ])
    && in_session_ids opts.session_ids r.message.session_id

abbrev pub result_of : Text → ℕ → Row → SearchResult
result_of snippet points r = record {
  message_id = r.message.id;
  session_id = r.message.session_id;
  project_id = r.session.project_id;
  project_name = r.project.name;
  msg_type = r.message.msg_type;
  content_full = r.message.content_full;
  snippet = snippet;
  score = points;
  timestamp = r.message.timestamp;
}

unfoldable pub join_messages : SessionDb → List Message → List Row
join_messages db [] = []
join_messages db (m ∷ ms) = elim (join_row db m) [
  | none ↦ join_messages db ms
  | some r ↦ r ∷ join_messages db ms
]

-- The rows that one match joins; the id of a message is unique.
unfoldable pub join_matches : SearchOptions → List Row → List Match → List SearchResult
join_matches opts rows [] = []
join_matches opts rows (x ∷ xs) =
    map (result_of x.snippet x.score)
      (retain (λ r. (r.message.id == x.rowid) && in_scope opts r) rows)
    ++ join_matches opts rows xs

abbrev pub order_results : SearchOrderBy → List SearchResult → List SearchResult
order_results score rs = sort_by (λ r. r.score) rs
order_results time_desc rs = reverse (sort_by (λ r. r.timestamp) rs)
order_results time_asc rs = sort_by (λ r. r.timestamp) rs

abbrev pub Fts : Type 0
Fts = Text → Option (List Match)

unfoldable pub search_fts_internal :
    Fts → Text → ℕ → SearchOptions → SessionDb → Option (List SearchResult)
search_fts_internal fts query limit opts db = elim (fts (escape_fts5_query query)) [
  | none ↦ none
  | some xs ↦ some (
      take limit
        (order_results opts.order_by (join_matches opts (join_messages db db.messages) xs)))
]

-- Without a score the newest are first.
abbrev pub order_rows : SearchOrderBy → List Row → List Row
order_rows score rows = reverse (sort_by (λ r. r.message.timestamp) rows)
order_rows time_desc rows = reverse (sort_by (λ r. r.message.timestamp) rows)
order_rows time_asc rows = sort_by (λ r. r.message.timestamp) rows

abbrev pub is_listed : ℕ → List ℕ → Bool
is_listed id ids = any (λ j. j == id) ids

-- The query is put into the pattern as it is.
abbrev pub wanted : Text → SearchOptions → List ℕ → Row → Bool
wanted query opts exclude_ids r =
    like (pattern_tokens (percent ∷ (query ++ percent ∷ []))) r.message.content_full
    && in_scope opts r
    && not (is_listed r.message.id exclude_ids)

unfoldable pub search_like_fallback :
    Text → ℕ → SearchOptions → List ℕ → SessionDb → List SearchResult
search_like_fallback query limit opts exclude_ids db =
    map (λ r. result_of (take 200 r.message.content_full) 0 r)
      (take limit (
        order_rows opts.order_by
          (retain (wanted query opts exclude_ids) (join_messages db db.messages))))

unfoldable pub search_fts_full_with_sessions :
    Fts → Text → ℕ → SearchOptions → SessionDb → Option (List SearchResult)
search_fts_full_with_sessions fts query limit opts db =
    elim (search_fts_internal fts query limit opts db) [
      | none ↦ none
      | some found ↦ if leb limit (length found) then some found else elim opts.project_id [
        | none ↦ some found
        | some id ↦ some (
            found
            ++ search_like_fallback query (limit - length found) opts
                (map (λ r. r.message_id) found) db)
      ]
    ]

-- The variants with fewer arguments.
unfoldable pub search_fts_with_options :
    Fts → Text → ℕ → Option ℕ → SearchOrderBy → SessionDb → Option (List SearchResult)
search_fts_with_options fts query limit project_id order_by db =
    search_fts_full_with_sessions fts query limit
      (record {
        project_id = project_id;
        order_by = order_by;
        start_timestamp = none;
        end_timestamp = none;
        session_ids = [];
      })
      db

unfoldable pub search_fts : Fts → Text → ℕ → SessionDb → Option (List SearchResult)
search_fts fts query limit db = search_fts_with_options fts query limit none score db
