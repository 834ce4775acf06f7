-- ===== src/Db/Tests/Rows.antt =====
-- The theorems of Db.Listing, Db.Talks, Db.Views and Db.Dedup at concrete tables.
use ai_cli_session_db.Prelude.{
  ℕ, ◌≤◌, String, List, [], ◌∷◌, Option, none, some, ◌≡◌, refl, inl, inr, Has, codes, length,
  Bool-cases, subst, retain, str_eq, str_eq_iff, arith,
}
use ai_cli_session_db.Db.{SessionDb, Session, Project, ChainNode}
use ai_cli_session_db.Db.Sessions.{find_session}
use ai_cli_session_db.Db.Listing.{like, find_project, resolve_session_id}
use ai_cli_session_db.Db.Listing.Prefix.{Answers, resolve_session_id-Answers}
use ai_cli_session_db.Db.Views.{
  SessionWithProject, get_session_with_project, list_sessions_by_project_path, page_row, joined,
  get_last_message_preview_inner,
}
use ai_cli_session_db.Db.Views.Agree.{IsSimple, list_sessions-get_session}
use ai_cli_session_db.Db.Dedup.{deduplicate_projects}
use ai_cli_session_db.Db.Dedup.Steps.{path_at, shown}
use ai_cli_session_db.Db.Dedup.Removed.{IsWithout}
use ai_cli_session_db.Db.Dedup.Merge.{KeepsPaths}
use ai_cli_session_db.Db.Dedup.Unique.{deduplicate_projects_unique}
use ai_cli_session_db.Reader.Preview.{truncate_preview}
use ai_cli_session_db.Prelude.Lines.{is_whitespace}
use ai_cli_session_db.Db.Tests.{session, table}

resolve_session_id-Answers_example :
    Answers (codes "S1") table.sessions (resolve_session_id (codes "S1") table)
resolve_session_id-Answers_example =
    resolve_session_id-Answers (codes "S1") table ((refl, refl), ((refl, refl), tt))

abbrev project : ℕ → Project
project id = record {
  id = id;
  name = "p";
  path = "/p";
  source = "claude";
  encoded_dir_name = none;
  repo_url = none;
  created_at = 1;
  updated_at = 1;
}

abbrev node : String → Option String → ChainNode
node id prev = record {
  session_id = id;
  chain_id = "s1";
  prev_session_id = prev;
  depth = 0;
  created_at = 1;
}

-- The session s2 is a child of s1 and goes on with it.
abbrev pub related : SessionDb
related = record table {
  projects = project 1 ∷ [];
  session_relations =
      record {
        parent_session_id = "s1";
        child_session_id = "s2";
        relation_type = "subagent";
        source = "claude";
        created_at = 2;
      }
      ∷ [];
  continuation_chain_nodes = node "s1" none ∷ node "s2" (some "s1") ∷ [];
}

abbrev shown_s1 : SessionWithProject
shown_s1 = record {
  session = session "s1" 0;
  project_name = "p";
  project_path = "/p";
  last_message_type = some "assistant";
  last_message_preview = some (codes "text");
  children_count = some 1;
  parent_session_id = none;
  child_session_ids = some ("s2" ∷ []);
  continuation_prev_id = none;
  continuation_next_ids = some ("s2" ∷ []);
}

shown_in_page : Has shown_s1 (list_sessions_by_project_path "/p" 5 0 related)
unfolding list_sessions_by_project_path page_row joined find_project get_last_message_preview_inner
    like truncate_preview is_whitespace
shown_in_page = inr (inl refl)

unique_row :
    (s : Session) → Has s related.sessions → find_session s.session_id related.sessions ≡ some s
unfolding find_session
unique_row s (inl e) = rw e refl
unique_row s (inr (inl e)) = rw e refl
unique_row s (inr (inr n)) = absurd n

abbrev nodes_of : String → List ChainNode
nodes_of id = retain (λ (n : ChainNode). str_eq n.session_id id) related.continuation_chain_nodes

nodes_once : (id : String) → length (nodes_of id) ≤ 1
nodes_once id = elim (Bool-cases (str_eq "s1" id)) [
  | inl e ↦ subst (λ i. length (nodes_of i) ≤ 1) ((str_eq_iff "s1" id).0 e) (omega arith)
  | inr e ↦ elim (Bool-cases (str_eq "s2" id)) [
    | inl f ↦ rw (e, f) (omega arith)
    | inr f ↦ rw (e, f) (omega arith)
  ]
]

related-IsSimple : IsSimple related
related-IsSimple = record {
  sessions_unique = unique_row;
  one_parent = λ id. ground arith;
  one_node = nodes_once;
  children_distinct = λ id. ground arith;
}

list_sessions-get_session_example : get_session_with_project "s1" related ≡ some shown_s1
list_sessions-get_session_example =
    list_sessions-get_session "/p" 5 0 related shown_s1 related-IsSimple shown_in_page

-- Two projects of one path, each with sessions.
abbrev doubled : SessionDb
doubled = record table {
  projects = project 1 ∷ project 2 ∷ [];
  sessions = session "s1" 0 ∷ record (session "s2" 4) { project_id = 2 } ∷ [];
}

deduplicate_projects_unique_example :
    (done : SessionDb) × (deleted : List ℕ) × (deduplicate_projects doubled
      ≡ some (done, length deleted, deleted))
    × IsWithout doubled.projects deleted done.projects
    × (shown done ≡ shown doubled)
    × KeepsPaths doubled.projects done.projects
    × ((j k : ℕ) (q : String)
        → path_at j done.projects ≡ some q
        → path_at k done.projects ≡ some q
        → j ≡ k)
deduplicate_projects_unique_example =
    deduplicate_projects_unique doubled ((omega arith, tt), (tt, tt))
