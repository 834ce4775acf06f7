-- ===== src/Collector.antt =====
-- src/collector.rs: how the messages of a parsed session are numbered and stored. The adapter that
-- parses a session file is a library; a parsed message is its result, with the timestamp as the
-- number it reads as, if it reads as one. The clock is the argument `now`.
pub mod Numbering
pub mod First
pub mod Path
pub mod Walk
pub mod Tests
use mathlib.Core.Option
use ai_cli_session_db.Prelude.{
  ℕ, suc, ◌+◌, ◌*◌, String, Text, List, [], ◌∷◌, Option, none, some, Bool, true, false, leb,
  is_empty, if◌then◌else◌,
}
use ai_cli_session_db.Db.{SessionDb, MessageType}
use ai_cli_session_db.Db.Messages.{
  MessageInput, insert_messages, get_session_max_sequence, get_session_latest_timestamp,
}

pub record ParsedMessage : Type 0 where
  pub uuid : String
  pub message_type : MessageType
  pub content_text : Text
  pub content_full : Text
  pub timestamp : Option ℕ
  pub source : String
  pub channel : Option String
  pub model : Option String
  pub tool_call_id : Option String
  pub tool_name : Option String
  pub tool_args : Option Text
  pub raw : Option Text

-- `BUFFER_MS`: thirty minutes.
abbrev pub buffer_ms : ℕ
buffer_ms = 30 * 60 * 1000

-- `timestamp <= cutoff_ts`, the cutoff being the latest stored timestamp less the buffer, or 0.
abbrev pub too_old : Option ℕ → ℕ → Bool
too_old none timestamp = leb timestamp 0
too_old (some latest) timestamp = leb (timestamp + buffer_ms) latest

abbrev pub time_of : ℕ → ParsedMessage → ℕ
time_of now m = elim m.timestamp [ none ↦ now | some t ↦ t ]

unfoldable pub message_input : ℕ → ℕ → ParsedMessage → MessageInput
message_input now sequence m = record {
  uuid = m.uuid;
  msg_type = m.message_type;
  content_text = m.content_text;
  content_full = m.content_full;
  timestamp = time_of now m;
  sequence = sequence;
  source = some m.source;
  channel = m.channel;
  model = m.model;
  tool_call_id = m.tool_call_id;
  tool_name = m.tool_name;
  tool_args = m.tool_args;
  raw = m.raw;
  approval_status = none;
  approval_resolved_at = none;
}

-- The messages in the order of the file. Every message has its number, those too old as well.
unfoldable pub number_messages : ℕ → (ℕ → Bool) → ℕ → List ParsedMessage → List MessageInput
unfolding message_input
number_messages now drops sequence [] = []
number_messages now drops sequence (m ∷ ms) =
    let rest = number_messages now drops (suc sequence) ms in
    if drops (time_of now m) then rest else message_input now sequence m ∷ rest

-- `max_sequence + 1`, which is 0 where there are no rows.
unfoldable pub start_sequence : String → SessionDb → ℕ
start_sequence id db = elim (get_session_max_sequence id db) [ none ↦ 0 | some n ↦ suc n ]

-- The part of `collect_all` that stores the messages of one session.
unfoldable pub collect_session :
    String → ℕ → List ParsedMessage → SessionDb → SessionDb × ℕ × List ℕ
collect_session id now parsed db =
    let messages =
      number_messages now (too_old (get_session_latest_timestamp id db)) (start_sequence id db)
        parsed in
    if is_empty messages then (db, 0, []) else insert_messages id messages now db

-- The same part of `collect_by_path`, which has no cutoff.
unfoldable pub collect_path : String → ℕ → List ParsedMessage → SessionDb → SessionDb × ℕ × List ℕ
collect_path id now parsed db =
    let messages = number_messages now (λ timestamp. false) (start_sequence id db) parsed in
    if is_empty messages then (db, 0, []) else insert_messages id messages now db
