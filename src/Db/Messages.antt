-- ===== src/Db/Messages.antt =====
-- src/db.rs, the message table: insertion with deduplication, and the reads by session.
pub mod Insert
use mathlib.Core.Option
use ai_cli_session_db.Prelude.{
  ℕ, suc, ◌+◌, String, Text, List, [], ◌∷◌, ◌++◌, Option, none, some, Bool, true, false, not, ◌&&◌,
  ◌||◌, any, retain, length, take, drop, reverse, str_eq, if◌then◌else◌, max, map,
}
use ai_cli_session_db.Prelude.Sorting.{sort_by}
use ai_cli_session_db.Db.{SessionDb, Session, Message, MessageType, ApprovalStatus, unindexed}

pub record MessageInput : Type 0 where
  pub uuid : String
  pub msg_type : MessageType
  pub content_text : Text
  pub content_full : Text
  pub timestamp : ℕ
  pub sequence : ℕ
  pub source : Option String
  pub channel : Option String
  pub model : Option String
  pub tool_call_id : Option String
  pub tool_name : Option String
  pub tool_args : Option Text
  pub raw : Option Text
  pub approval_status : Option ApprovalStatus
  pub approval_resolved_at : Option ℕ

-- The rows of a session: `WHERE session_id = ?1`.
abbrev pub in_session : String → List Message → List Message
in_session id rows = retain (λ m. str_eq m.session_id id) rows

abbrev pub has_uuid : String → List Message → Bool
has_uuid uuid rows = any (λ m. str_eq m.uuid uuid) rows

abbrev pub has_session : String → List Session → Bool
has_session id rows = any (λ s. str_eq s.session_id id) rows

unfoldable pub message_row : ℕ → String → MessageInput → Message
message_row id session_id msg = record {
  id = id;
  session_id = session_id;
  uuid = msg.uuid;
  msg_type = msg.msg_type;
  content_text = msg.content_text;
  content_full = msg.content_full;
  timestamp = msg.timestamp;
  sequence = msg.sequence;
  source = msg.source;
  channel = msg.channel;
  model = msg.model;
  tool_call_id = msg.tool_call_id;
  tool_name = msg.tool_name;
  tool_args = msg.tool_args;
  raw = msg.raw;
  vector_indexed = unindexed;
  approval_status = msg.approval_status;
  approval_resolved_at = msg.approval_resolved_at;
}

-- `INSERT INTO messages … ON CONFLICT(uuid) DO NOTHING`: the rowid of the new row. A row whose
-- session is missing is refused by the foreign key, and the source drops that error.
unfoldable pub insert_message : String → SessionDb → MessageInput → SessionDb × Option ℕ
insert_message session_id db msg =
    if has_uuid msg.uuid db.messages
      || (db.foreign_keys && not (has_session session_id db.sessions))
    then (db, none)
    else let id = suc db.last_message_id in
      (
        record db {
          messages = db.messages ++ message_row id session_id msg ∷ [];
          last_message_id = id;
        },
        some id,
      )

-- The loop over the messages: how many were inserted, and their rowids.
unfoldable pub insert_loop : String → SessionDb → List MessageInput → SessionDb × ℕ × List ℕ
insert_loop session_id db [] = (db, 0, [])
insert_loop session_id db (msg ∷ msgs) =
    let (db', new_id) = insert_message session_id db msg in
    let (done, inserted, new_ids) = insert_loop session_id db' msgs in
    (
      done,
      elim new_id [ none ↦ inserted | some id ↦ suc inserted ],
      elim new_id [ none ↦ new_ids | some id ↦ id ∷ new_ids ],
    )

-- The closing `UPDATE sessions`.
unfoldable pub refresh_count : String → ℕ → SessionDb → SessionDb
refresh_count session_id now db = record db {
  sessions =
      map
        (λ s.
          if str_eq s.session_id session_id
          then record s {
            message_count = length (in_session session_id db.messages);
            updated_at = now;
          }
          else s)
        db.sessions;
}

-- `SessionDB::insert_messages`.
unfoldable pub insert_messages : String → List MessageInput → ℕ → SessionDb → SessionDb × ℕ × List ℕ
insert_messages session_id messages now db =
    let (db', inserted, new_ids) = insert_loop session_id db messages in
    (refresh_count session_id now db', inserted, new_ids)

-- `LIMIT limit OFFSET offset`.
abbrev pub page : {A : Type 0} → ℕ → ℕ → List A → List A
page limit offset rows = take limit (drop offset rows)

-- `ORDER BY sequence`, either way; rows of one sequence have no promised order.
abbrev pub by_sequence : Bool → List Message → List Message
by_sequence desc rows =
    let asc = sort_by (λ m. m.sequence) rows in if desc then reverse asc else asc

unfoldable pub list_messages_ordered : String → ℕ → ℕ → Bool → SessionDb → List Message
list_messages_ordered session_id limit offset desc db =
    page limit offset (by_sequence desc (in_session session_id db.messages))

unfoldable pub list_messages : String → ℕ → ℕ → SessionDb → List Message
unfolding list_messages_ordered
list_messages session_id limit offset db = list_messages_ordered session_id limit offset false db

-- `limit` is `None` for all; the source passes the largest `i64`.
unfoldable pub get_messages_with_options : String → Option ℕ → Bool → SessionDb → List Message
get_messages_with_options session_id limit desc db =
    let rows = by_sequence desc (in_session session_id db.messages) in
    elim limit [ none ↦ rows | some n ↦ take n rows ]

unfoldable pub get_session_message_count : String → SessionDb → ℕ
get_session_message_count session_id db = length (in_session session_id db.messages)

-- `MAX(column)`: NULL on no rows.
unfoldable pub max_of : List ℕ → Option ℕ
max_of [] = none
max_of (n ∷ ns) = elim (max_of ns) [ none ↦ some n | some m ↦ some (max n m) ]

unfoldable pub get_session_max_sequence : String → SessionDb → Option ℕ
unfolding max_of
get_session_max_sequence session_id db =
    max_of (map (λ m. m.sequence) (in_session session_id db.messages))

unfoldable pub get_session_latest_timestamp : String → SessionDb → Option ℕ
unfolding max_of
get_session_latest_timestamp session_id db =
    max_of (map (λ m. m.timestamp) (in_session session_id db.messages))
