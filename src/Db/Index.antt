-- ===== src/Db/Index.antt =====
-- src/db.rs, the vector-index state of messages: the queue of messages to index, those that failed,
-- and the marks. A row keeps the column's three values; the source's `Message` keeps of it whether
-- it is not 0.
pub mod Queue
use mathlib.Core.Option
use ai_cli_session_db.Prelude.{
  ℕ, List, [], ◌∷◌, Bool, true, false, ◌&&◌, map, length, take, any, retain, is_empty,
  if◌then◌else◌, ◌==◌,
}
use ai_cli_session_db.Prelude.Sorting.{sort_by}
use ai_cli_session_db.Db.{
  SessionDb, Message, MessageType, user, assistant, tool, system, VectorIndexed, unindexed, indexed,
  failed,
}

abbrev pub is_assistant : MessageType → Bool
is_assistant assistant = true
is_assistant user = false
is_assistant tool = false
is_assistant system = false

abbrev pub is_unindexed : VectorIndexed → Bool
is_unindexed unindexed = true
is_unindexed indexed = false
is_unindexed failed = false

abbrev pub is_failed : VectorIndexed → Bool
is_failed failed = true
is_failed indexed = false
is_failed unindexed = false

-- `WHERE vector_indexed = 0 AND type = 'assistant'`.
abbrev pub to_index : Message → Bool
to_index m = is_unindexed m.vector_indexed && is_assistant m.msg_type

-- `WHERE id IN (…)`.
abbrev pub has_id : List ℕ → Message → Bool
has_id ids m = any (λ i. i == m.id) ids

abbrev pub by_id : List Message → List Message
by_id rows = sort_by (λ m. m.id) rows

unfoldable pub get_unindexed_messages : ℕ → SessionDb → List Message
get_unindexed_messages limit db = take limit (by_id (retain to_index db.messages))

unfoldable pub count_unindexed_messages : SessionDb → ℕ
count_unindexed_messages db = length (retain to_index db.messages)

-- `UPDATE messages SET vector_indexed = … WHERE …`, and how many rows it touched.
abbrev pub set_indexed : VectorIndexed → (Message → Bool) → Message → Message
set_indexed v p m = if p m then record m { vector_indexed = v } else m

pub update_indexed : VectorIndexed → (Message → Bool) → SessionDb → SessionDb × ℕ
update_indexed v p db =
    (record db { messages = map (set_indexed v p) db.messages }, length (retain p db.messages))

unfoldable pub mark_messages_indexed : List ℕ → SessionDb → SessionDb × ℕ
unfolding update_indexed
mark_messages_indexed ids db =
    if is_empty ids then (db, 0) else update_indexed indexed (has_id ids) db

unfoldable pub mark_message_index_failed : ℕ → SessionDb → SessionDb
unfolding update_indexed
mark_message_index_failed id db = (update_indexed failed (λ m. id == m.id) db).0

unfoldable pub mark_messages_index_failed : List ℕ → SessionDb → SessionDb × ℕ
unfolding update_indexed
mark_messages_index_failed ids db =
    if is_empty ids then (db, 0) else update_indexed failed (has_id ids) db

unfoldable pub get_failed_indexed_messages : ℕ → SessionDb → List Message
get_failed_indexed_messages limit db =
    take limit (by_id (retain (λ m. is_failed m.vector_indexed) db.messages))

unfoldable pub count_failed_indexed_messages : SessionDb → ℕ
count_failed_indexed_messages db = length (retain (λ m. is_failed m.vector_indexed) db.messages)

unfoldable pub reset_failed_indexed_messages : SessionDb → SessionDb × ℕ
unfolding update_indexed
reset_failed_indexed_messages db = update_indexed unindexed (λ m. is_failed m.vector_indexed) db

unfoldable pub get_messages_by_ids : List ℕ → SessionDb → List Message
get_messages_by_ids ids db = if is_empty ids then [] else by_id (retain (has_id ids) db.messages)
