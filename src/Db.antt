-- ===== src/Db.antt =====
-- src/db.rs and src/schema.rs: the SQLite database as tables, lists of rows in rowid order. Each
-- SQL statement of the source is one list operation; a statement fails only on a constraint of the
-- schema. The clock is the argument `now`. Whether foreign keys are enforced is the `foreign_keys`
-- pragma, which the source leaves at the default of the SQLite build.
pub mod Messages
pub mod Chains
pub mod Index
pub mod Projects
pub mod Sessions
pub mod Listing
pub mod Talks
pub mod Dedup
pub mod Views
pub mod Sound
pub mod Approvals
pub mod Tests
use ai_cli_session_db.Prelude.{ℕ, String, Text, List, Option, Bool}

pub record Project : Type 0 where
  pub id : ℕ
  pub name : String
  pub path : String
  pub source : String
  pub encoded_dir_name : Option String
  pub repo_url : Option String
  pub created_at : ℕ
  pub updated_at : ℕ

-- The column `encoded_dir_name` is left out: nothing writes it, so that it is NULL in every row.
pub record Session : Type 0 where
  pub id : ℕ
  pub session_id : String
  pub project_id : ℕ
  pub message_count : ℕ
  pub last_message_at : Option ℕ
  pub cwd : Option String
  pub model : Option String
  pub channel : Option String
  pub file_mtime : Option ℕ
  pub file_size : Option ℕ
  pub file_offset : Option ℕ
  pub file_inode : Option ℕ
  pub meta : Option String
  pub session_type : Option String
  pub source : Option String
  pub created_at : ℕ
  pub updated_at : ℕ

-- types.rs.
pub data ApprovalStatus : Type 0 where
  pending approved rejected timeout : ApprovalStatus

-- The column `vector_indexed`: 0, 1 and -1.
pub data VectorIndexed : Type 0 where
  unindexed indexed failed : VectorIndexed

-- The message types of the collector library; the column holds their names.
pub data MessageType : Type 0 where
  user assistant tool system : MessageType

pub record Message : Type 0 where
  pub id : ℕ
  pub session_id : String
  pub uuid : String
  pub msg_type : MessageType
  pub content_text : Text
  pub content_full : Text
  pub timestamp : ℕ
  pub sequence : ℕ
  pub source : Option String
  pub channel : Option String
  pub model : Option String
  pub tool_call_id : Option String
  pub tool_name : Option String
  pub tool_args : Option Text
  pub raw : Option Text
  pub vector_indexed : VectorIndexed
  pub approval_status : Option ApprovalStatus
  pub approval_resolved_at : Option ℕ

pub record Talk : Type 0 where
  pub id : ℕ
  pub session_id : String
  pub talk_id : String
  pub summary_l2 : Text
  pub summary_l3 : Option Text
  pub created_at : ℕ
  pub updated_at : ℕ

pub record SessionRelation : Type 0 where
  pub parent_session_id : String
  pub child_session_id : String
  pub relation_type : String
  pub source : String
  pub created_at : ℕ

-- A row of `continuation_chains`.
pub record Chain : Type 0 where
  pub chain_id : String
  pub root_session_id : String
  pub created_at : ℕ

pub record ChainNode : Type 0 where
  pub session_id : String
  pub chain_id : String
  pub prev_session_id : Option String
  pub depth : ℕ
  pub created_at : ℕ

-- The tables; a `last_` field is the AUTOINCREMENT counter of its table.
pub record SessionDb : Type 0 where
  pub foreign_keys : Bool
  pub projects : List Project
  pub sessions : List Session
  pub messages : List Message
  pub talks : List Talk
  pub session_relations : List SessionRelation
  pub continuation_chains : List Chain
  pub continuation_chain_nodes : List ChainNode
  pub last_project_id : ℕ
  pub last_session_id : ℕ
  pub last_message_id : ℕ
  pub last_talk_id : ℕ
