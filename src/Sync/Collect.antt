-- ===== src/Sync/Collect.antt =====
-- src/sync/client.rs, the read-only half: what is read of the main database for one push.
use mathlib.Core.Option
use ai_cli_session_db.Prelude.{
  ℕ, String, List, [], ◌∷◌, Option, none, some, Bool, true, ◌&&◌, ◌||◌, map, retain, take, str_eq,
  if◌then◌else◌, ltb, ◌==◌,
}
use ai_cli_session_db.Prelude.Sorting.{sort_by}
use ai_cli_session_db.Db.{
  SessionDb, Project, Session, Message, MessageType, user, assistant, tool, system, ApprovalStatus,
  pending, approved, rejected, timeout,
}
use ai_cli_session_db.Db.Messages.{in_session}
use ai_cli_session_db.Db.Chains.{find_node, find_chain}
use ai_cli_session_db.Sync.Batch.{
  SyncBatch, SyncProject, SyncSession, SyncMessage, SyncSessionRelation, SyncContinuationChain,
  SyncChainNode, SyncTalk,
}
use ai_cli_session_db.Sync.Cursors.{SyncDb, synced_count}
use ai_cli_session_db.Sync.Filter.{ProjectFilter, is_allowed}

-- The names that the columns hold (types.rs, `Display`).
abbrev pub type_name : MessageType → String
type_name user = "user"
type_name assistant = "assistant"
type_name tool = "tool"
type_name system = "system"

abbrev pub status_name : ApprovalStatus → String
status_name pending = "pending"
status_name approved = "approved"
status_name rejected = "rejected"
status_name timeout = "timeout"

-- The first row that passes: `query_row` on a unique key.
abbrev pub first : {A : Type 0} → (A → Bool) → List A → Option A
first p [] = none
first p (x ∷ xs) = let rest = first p xs in if p x then some x else rest

unfoldable pub project_of : Session → List Project → Option Project
project_of s projects = first (λ p. p.id == s.project_id) projects

unfoldable pub session_row : String → SessionDb → Option Session
session_row id db = first (λ s. str_eq s.session_id id) db.sessions

-- The path of a session's project: `SELECT p.path FROM sessions s JOIN projects p …`.
unfoldable pub session_path : String → SessionDb → Option String
session_path id db =
    Option.bind (session_row id db) (λ s. Option.map (λ p. p.path) (project_of s db.projects))

unfoldable pub read_project : String → SessionDb → Option SyncProject
read_project path db =
    Option.map
      (λ p. record { path = p.path; name = p.name; source = p.source; repo_url = p.repo_url })
      (first (λ p. str_eq p.path path) db.projects)

unfoldable pub read_session : String → SessionDb → Option SyncSession
read_session id db = Option.bind (session_row id db) (λ s.
    Option.map
      (λ p. record {
        session_id = s.session_id;
        project_path = p.path;
        cwd = s.cwd;
        model = s.model;
        channel = s.channel;
        message_count = s.message_count;
        last_message_at = s.last_message_at;
        session_type = s.session_type;
        source = s.source;
        meta = s.meta;
        created_at = s.created_at;
        updated_at = s.updated_at;
      })
      (project_of s db.projects))

unfoldable pub read_session_message_count : String → SessionDb → Option ℕ
read_session_message_count id db = Option.map (λ s. s.message_count) (session_row id db)

-- One row of the message query; `raw` is read only where the configuration asks for it.
unfoldable pub sync_message : Bool → Message → SyncMessage
sync_message sync_raw m = record {
  uuid = m.uuid;
  session_id = m.session_id;
  msg_type = type_name m.msg_type;
  content_text = m.content_text;
  content_full = m.content_full;
  timestamp = m.timestamp;
  sequence = m.sequence;
  source = m.source;
  channel = m.channel;
  model = m.model;
  tool_call_id = m.tool_call_id;
  tool_name = m.tool_name;
  tool_args = m.tool_args;
  raw = if sync_raw then m.raw else none;
  approval_status = Option.map status_name m.approval_status;
  approval_resolved_at = m.approval_resolved_at;
}

-- `WHERE session_id = ?1 AND sequence > ?2 ORDER BY sequence ASC LIMIT ?3`.
unfoldable pub read_messages : Bool → ℕ → String → ℕ → SessionDb → List SyncMessage
read_messages sync_raw batch_size id after db = map (sync_message sync_raw) (
    take batch_size
      (sort_by (λ m. m.sequence) (retain (λ m. ltb after m.sequence) (in_session id db.messages))))

unfoldable pub read_relations : String → SessionDb → List SyncSessionRelation
read_relations id db =
    map
      (λ r. record {
        parent_session_id = r.parent_session_id;
        child_session_id = r.child_session_id;
        relation_type = r.relation_type;
        source = r.source;
      })
      (retain (λ r. str_eq r.parent_session_id id || str_eq r.child_session_id id)
        db.session_relations)

unfoldable pub read_talks : String → SessionDb → List SyncTalk
read_talks id db =
    map
      (λ t. record {
        session_id = t.session_id;
        talk_id = t.talk_id;
        summary_l2 = t.summary_l2;
        summary_l3 = t.summary_l3;
      })
      (retain (λ t. str_eq t.session_id id) db.talks)

-- The chain of a session with all its nodes; `none` is the error of a missing chain row.
unfoldable pub read_chains :
    String → SessionDb → Option (List SyncContinuationChain × List SyncChainNode)
read_chains id db = elim (find_node id db.continuation_chain_nodes) [
  | none ↦ some ([], [])
  | some n ↦
      Option.map
        (λ c. (
          record { chain_id = c.chain_id; root_session_id = c.root_session_id } ∷ [],
          map
              (λ m. record {
                session_id = m.session_id;
                chain_id = m.chain_id;
                prev_session_id = m.prev_session_id;
                depth = m.depth;
              })
              (retain (λ m. str_eq m.chain_id n.chain_id) db.continuation_chain_nodes),
        ))
        (find_chain n.chain_id db.continuation_chains)
]

abbrev pub to_list : {A : Type 0} → Option A → List A
to_list none = []
to_list (some a) = a ∷ []

-- `collect_batch`.
unfoldable pub collect_batch : Bool → ℕ → String → String → ℕ → SessionDb → Option SyncBatch
collect_batch sync_raw batch_size id path after db =
    Option.map
      (λ r. record {
        projects = to_list (read_project path db);
        sessions = to_list (read_session id db);
        messages = read_messages sync_raw batch_size id after db;
        session_relations = read_relations id db;
        continuation_chains = r.0;
        chain_nodes = r.1;
        talks = read_talks id db;
      })
      (read_chains id db)

-- Whether a session has messages that no closed run has counted: the `WHERE` of
-- `list_sessions_with_new_messages`.
unfoldable pub has_new_messages : SyncDb → Session → Bool
has_new_messages sync s =
    ltb 0 s.message_count
    && elim (synced_count s.session_id sync) [ none ↦ true | some n ↦ ltb n s.message_count ]

unfoldable pub list_from :
    ProjectFilter → SyncDb → List Project → List Session → List (String × String)
list_from f sync projects [] = []
list_from f sync projects (s ∷ ss) =
    let rest = list_from f sync projects ss in
    elim (project_of s projects) [
      | none ↦ rest
      | some p ↦
          if has_new_messages sync s && is_allowed f p.path
          then (s.session_id, p.path) ∷ rest
          else rest
    ]

-- `list_sessions_with_new_messages`.
unfoldable pub list_sessions_with_new_messages :
    ProjectFilter → SyncDb → SessionDb → List (String × String)
unfolding list_from
list_sessions_with_new_messages f sync db = list_from f sync db.projects db.sessions
