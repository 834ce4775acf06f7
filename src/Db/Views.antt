-- ===== src/Db/Views.antt =====
-- src/db.rs, the two reads of sessions with their project, preview and neighbours: a page of the
-- sessions of a project, list_sessions_by_project_path, and one session, get_session_with_project.
pub mod Agree
use ai_cli_session_db.Prelude.{
  ℕ, String, Text, List, [], ◌∷◌, Option, none, some, Bool, true, false, not, ◌&&◌, map, retain,
  length, is_empty, codes, contains, str_eq, if◌then◌else◌,
}
use ai_cli_session_db.Prelude.Sorting.{sort_by}
use ai_cli_session_db.Db.{
  SessionDb, Session, Project, Message, MessageType, user, assistant, tool, system, SessionRelation,
  ChainNode,
}
use ai_cli_session_db.Db.Messages.{page, in_session}
use ai_cli_session_db.Db.Sessions.{find_session}
use ai_cli_session_db.Db.Listing.{
  newest_first, first, find_project, children_of, parents_of, like, pattern_tokens,
}
use ai_cli_session_db.Reader.Preview.{truncate_preview}

-- The columns of the join are the session's and the project's.
pub record SessionWithProject : Type 0 where
  pub session : Session
  pub project_name : String
  pub project_path : String
  pub last_message_type : Option String
  pub last_message_preview : Option Text
  pub children_count : Option ℕ
  pub parent_session_id : Option String
  pub child_session_ids : Option (List String)
  pub continuation_prev_id : Option String
  pub continuation_next_ids : Option (List String)

-- `type IN ('user', 'assistant')`, with the name.
abbrev pub dialogue_name : Message → Option String
dialogue_name m = elim m.msg_type [
  | user ↦ some "user"
  | assistant ↦ some "assistant"
  | tool ↦ none
  | system ↦ none
]

abbrev pub is_dialogue : Message → Bool
is_dialogue m = elim (dialogue_name m) [ none ↦ false | some n ↦ true ]

unfoldable pub get_last_message_preview_inner : String → SessionDb → Option (String × Text)
get_last_message_preview_inner session_id db =
    elim (first
      (newest_first (λ m. m.sequence) (retain is_dialogue (in_session session_id db.messages)))) [
        | none ↦ none
        | some m ↦ elim (dialogue_name m) [
          | none ↦ none
          | some name ↦ some (
            name,
            truncate_preview (if is_empty m.content_text then m.content_full else m.content_text)
                100,
          )
        ]
      ]

-- `Some` of a list that is not empty.
abbrev pub unless_empty : List String → Option (List String)
unless_empty [] = none
unless_empty (x ∷ xs) = some (x ∷ xs)

abbrev pub count_unless_empty : List String → Option ℕ
count_unless_empty [] = none
count_unless_empty (x ∷ xs) = some (length (x ∷ xs))

-- A session with its project, and what was read of its neighbours.
abbrev pub view :
    SessionDb
    → Session
    → Project
    → List String
    → Option String
    → Option String
    → List String
    → SessionWithProject
view db s p children parent prev next =
    let preview = get_last_message_preview_inner s.session_id db in
    record {
      session = s;
      project_name = p.name;
      project_path = p.path;
      last_message_type = elim preview [ none ↦ none | some (name, text) ↦ some name ];
      last_message_preview = elim preview [ none ↦ none | some (name, text) ↦ some text ];
      children_count = count_unless_empty children;
      parent_session_id = parent;
      child_session_ids = unless_empty children;
      continuation_prev_id = prev;
      continuation_next_ids = unless_empty next;
    }

-- SELECT DISTINCT.
abbrev pub distinct : List String → List String
distinct [] = []
distinct (x ∷ xs) = x ∷ retain (λ y. not (str_eq y x)) (distinct xs)

-- The nodes that follow a session.
abbrev pub follows : String → ChainNode → Bool
follows id n = elim n.prev_session_id [ none ↦ false | some p ↦ str_eq p id ]

abbrev pub child_ids : List SessionRelation → List String
child_ids rels = map (λ r. r.child_session_id) rels

-- SQL does not promise an order among rows of one time; here they stand in rowid order.
abbrev pub by_creation : List SessionRelation → List SessionRelation
by_creation rels = sort_by (λ r. r.created_at) rels

abbrev pub node_ids : List ChainNode → List String
node_ids nodes = map (λ n. n.session_id) nodes

abbrev pub nodes_by_creation : List ChainNode → List ChainNode
nodes_by_creation nodes = sort_by (λ n. n.created_at) nodes

-- `query_row` of one nullable column, `optional()` and `flatten()`.
abbrev pub first_prev : List ChainNode → Option String
first_prev [] = none
first_prev (n ∷ ns) = n.prev_session_id

abbrev pub first_parent : List SessionRelation → Option String
first_parent [] = none
first_parent (r ∷ rs) = some r.parent_session_id

unfoldable pub get_session_with_project : String → SessionDb → Option SessionWithProject
get_session_with_project id db = elim (find_session id db.sessions) [
  | none ↦ none
  | some s ↦ elim (find_project s.project_id db.projects) [
    | none ↦ none
    | some p ↦ some (
        view db s p
          (distinct (child_ids (by_creation (children_of s.session_id db.session_relations))))
          (first_parent (parents_of s.session_id db.session_relations))
          (first_prev (retain (λ n. str_eq n.session_id s.session_id) db.continuation_chain_nodes))
          (node_ids
            (nodes_by_creation (retain (follows s.session_id) db.continuation_chain_nodes))))
  ]
]

-- `INNER JOIN projects`, on its primary key.
unfoldable pub joined : List Project → List Session → List (Session × Project)
joined ps [] = []
joined ps (s ∷ ss) = elim (find_project s.project_id ps) [
  | none ↦ joined ps ss
  | some p ↦ (s, p) ∷ joined ps ss
]

-- `session_id NOT LIKE 'agent-%'`.
abbrev pub is_agent : Session → Bool
is_agent s = like (pattern_tokens (codes "agent-%")) (codes s.session_id)

-- The maps of the page: rows of the sessions of the page, read at once. An insert into a map with one
-- value for a key leaves the last.
abbrev pub last_parent : List SessionRelation → Option String
last_parent [] = none
last_parent (r ∷ rs) = elim (last_parent rs) [ none ↦ some r.parent_session_id | some p ↦ some p ]

abbrev pub last_prev : List ChainNode → Option String
last_prev [] = none
last_prev (n ∷ ns) = elim (last_prev ns) [ none ↦ n.prev_session_id | some p ↦ some p ]

-- One session of the page whose identifiers are `ids`.
unfoldable pub page_row : List String → SessionDb → Session × Project → SessionWithProject
page_row ids db (s, p) =
    view db s p
      (child_ids (
        children_of s.session_id
          (by_creation (retain (λ r. contains ids r.parent_session_id) db.session_relations))))
      (last_parent (
        parents_of s.session_id
          (retain (λ r. contains ids r.child_session_id) db.session_relations)))
      (last_prev (
        retain (λ n. str_eq n.session_id s.session_id)
          (retain (λ n. contains ids n.session_id) db.continuation_chain_nodes)))
      (node_ids (
        retain (follows s.session_id) (
          nodes_by_creation (
            retain (λ n. elim n.prev_session_id [ none ↦ false | some p ↦ contains ids p ])
              db.continuation_chain_nodes))))

abbrev pub project_page : String → ℕ → ℕ → SessionDb → List (Session × Project)
project_page path limit offset db = page limit offset (
    newest_first (λ r. r.0.updated_at)
      (retain (λ r. str_eq r.1.path path && not (is_agent r.0)) (joined db.projects db.sessions)))

unfoldable pub list_sessions_by_project_path : String → ℕ → ℕ → SessionDb → List SessionWithProject
unfolding page_row joined
list_sessions_by_project_path path limit offset db =
    let rows = project_page path limit offset db in
    map (page_row (map (λ r. r.0.session_id) rows) db) rows
