-- ===== src/Sync/Batch.antt =====
-- src/sync/mod.rs: what one push carries. Message and summary texts are lists of code points, for
-- they are searched and rewritten; identifiers and paths are strings, which are only compared.
-- Times, counts, sequences and depths are natural numbers (the source's `i64`, never negative here).
use ai_cli_session_db.Prelude.{ℕ, String, Text, List, Option}

pub record SyncProject : Type 0 where
  pub path : String
  pub name : String
  pub source : String
  pub repo_url : Option String

pub record SyncSession : Type 0 where
  pub session_id : String
  pub project_path : String
  pub cwd : Option String
  pub model : Option String
  pub channel : Option String
  pub message_count : ℕ
  pub last_message_at : Option ℕ
  pub session_type : Option String
  pub source : Option String
  pub meta : Option String
  pub created_at : ℕ
  pub updated_at : ℕ

pub record SyncMessage : Type 0 where
  pub uuid : String
  pub session_id : String
  pub msg_type : String
  pub content_text : Text
  pub content_full : Text
  pub timestamp : ℕ
  pub sequence : ℕ
  pub source : Option String
  pub channel : Option String
  pub model : Option String
  pub tool_call_id : Option String
  pub tool_name : Option String
  pub tool_args : Option Text
  pub raw : Option Text
  pub approval_status : Option String
  pub approval_resolved_at : Option ℕ

pub record SyncSessionRelation : Type 0 where
  pub parent_session_id : String
  pub child_session_id : String
  pub relation_type : String
  pub source : String

pub record SyncContinuationChain : Type 0 where
  pub chain_id : String
  pub root_session_id : String

pub record SyncChainNode : Type 0 where
  pub session_id : String
  pub chain_id : String
  pub prev_session_id : Option String
  pub depth : ℕ

pub record SyncTalk : Type 0 where
  pub session_id : String
  pub talk_id : String
  pub summary_l2 : Text
  pub summary_l3 : Option Text

pub record SyncBatch : Type 0 where
  pub projects : List SyncProject
  pub sessions : List SyncSession
  pub messages : List SyncMessage
  pub session_relations : List SyncSessionRelation
  pub continuation_chains : List SyncContinuationChain
  pub chain_nodes : List SyncChainNode
  pub talks : List SyncTalk

-- The last sequence of one session in a push, with that message's time.
pub record SyncCursor : Type 0 where
  pub last_sequence : ℕ
  pub last_timestamp : ℕ

-- The server's answer over HTTP; its cursors are not read by the client.
pub record SyncPushResponse : Type 0 where
  pub accepted : ℕ
  pub skipped : ℕ
