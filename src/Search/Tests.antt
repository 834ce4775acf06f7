-- ===== src/Search/Tests.antt =====
-- The theorems of Search at concrete queries.
use ai_cli_session_db.Prelude.{
  ℕ, ◌≤◌, ◌<◌, List, [], ◌∷◌, none, some, true, false, ◌≡◌, refl, map, codes, length, Has,
}
use ai_cli_session_db.Prelude.Lines.{split_whitespace}
use ai_cli_session_db.Search.Fts.{
  escape_fts5_query, fts5_tokens, outside, alternatives, fts5_tokens-escape,
}
use ai_cli_session_db.Search.Like.{escape_like_pattern, like_tokens, literal, like_tokens-escape}
use ai_cli_session_db.Search.Full.{
  SearchOptions, time_desc, SearchResult, Match, Row, Fts, search_fts_full_with_sessions,
}
use ai_cli_session_db.Search.Full.Scope.{has_text}
use ai_cli_session_db.Search.Full.Rows.{IsJoined, IsInScope}
use ai_cli_session_db.Search.Full.Complete.{IsFound, IsHit, search_fts_full_lem}
use ai_cli_session_db.Db.Tests.Rows.{related}

like_tokens-escape_example :
    like_tokens false (escape_like_pattern (codes "50%_off")) ≡ map literal (codes "50%_off")
like_tokens-escape_example = like_tokens-escape (codes "50%_off")

fts5_tokens-escape_example :
    fts5_tokens outside (escape_fts5_query (codes "say \"hi\" now"))
    ≡ alternatives (split_whitespace (codes "say \"hi\" now"))
fts5_tokens-escape_example = fts5_tokens-escape (codes "say \"hi\" now")

-- The index gives one message; the limit leaves room for those that have the text.
abbrev options : SearchOptions
options = record {
  project_id = some 1;
  order_by = time_desc;
  start_timestamp = some 1;
  end_timestamp = none;
  session_ids = codes "s" ∷ [];
}

abbrev first_match : List Match
first_match = record { rowid = 1; snippet = codes "text"; score = 3 } ∷ []

abbrev index : Fts
index query = some first_match

search_fts_full_lem_example :
    (results : List SearchResult) × (search_fts_full_with_sessions index
        (codes "EX")
        9
        options
        related
      ≡ some results)
    × (length results ≤ 9)
    × ((x : SearchResult)
        → Has x results
        → IsHit related options (IsFound (codes "EX") first_match) x)
    × ((id : ℕ) (r : Row)
        → some 1 ≡ some id
        → length results < 9
        → IsJoined related r
        → IsInScope options r
        → has_text (codes "EX") r.message.content_full ≡ true
        → (x : SearchResult) × Has x results × (x.message_id ≡ r.message.id))
search_fts_full_lem_example =
    search_fts_full_lem index (codes "EX") 9 options related first_match
      ((refl, refl), ((refl, refl), tt)) refl
