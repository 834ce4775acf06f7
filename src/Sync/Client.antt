-- ===== src/Sync/Client.antt =====
-- src/sync/client.rs, the push: the batches of one session in a loop, each acknowledged by the server
-- before the cursor moves. The main database does not change during a run. The server, and all of
-- HTTP with it, is a function of the requests so far; `none` is a request that fails.
pub mod Loop
pub mod Chunks
pub mod Total
pub mod Deliver
pub mod Complete
pub mod Leaving
pub mod Safe
pub mod Stranded
pub mod Once
pub mod Passes
pub mod Ws
use mathlib.Core.Option
use ai_cli_session_db.Prelude.{
  ℕ, zero, suc, ◌+◌, String, List, [], ◌∷◌, ◌++◌, Option, none, some, Bool, true, false, map,
  length, is_empty, str_eq, if◌then◌else◌, ltb, max,
}
use ai_cli_session_db.Db.{SessionDb}
use ai_cli_session_db.Db.Messages.{max_of}
use ai_cli_session_db.Sync.Batch.{SyncBatch, SyncMessage, SyncCursor, SyncPushResponse}
use ai_cli_session_db.Sync.Collect.{collect_batch, read_session_message_count, session_path}
use ai_cli_session_db.Sync.Cursors.{
  SyncDb, get_cursor, update_cursor, update_cursor_with_count, get_state, get_or_init_device_id,
  upsert,
}
use ai_cli_session_db.Sync.Filter.{
  ProjectFilter, SensitiveWordFilter, is_allowed, filter_projects, filter_words,
}

pub record SyncClient : Type 0 where
  pub api_key : String
  pub encryption : String
  pub sync_raw : Bool
  pub batch_size : ℕ
  pub project_filter : ProjectFilter
  pub word_filter : Option SensitiveWordFilter

-- `SyncPushRequest`, with the bearer key that it is sent under.
pub record SyncPushRequest : Type 0 where
  pub bearer : String
  pub device_id : String
  pub encryption : String
  pub batch : SyncBatch
  pub cursors : List (String × SyncCursor)

abbrev pub Server : Type 0
Server = List SyncPushRequest → SyncPushRequest → Option SyncPushResponse

-- The stored key where there is one and it is not empty, else the configured one.
unfoldable pub effective_api_key : SyncClient → SyncDb → Option String
effective_api_key c sync =
    let static : Option String = if str_eq c.api_key "" then none else some c.api_key in
    elim (get_state "api_key" sync) [
      | none ↦ static
      | some key ↦ if str_eq key "" then static else some key
    ]

-- The highest sequence of each session in the batch, from 0.
unfoldable pub advance_cursor : SyncMessage → Option SyncCursor → SyncCursor
advance_cursor m none =
    if ltb 0 m.sequence
    then record { last_sequence = m.sequence; last_timestamp = m.timestamp }
    else record { last_sequence = 0; last_timestamp = 0 }
advance_cursor m (some c) =
    if ltb c.last_sequence m.sequence
    then record { last_sequence = m.sequence; last_timestamp = m.timestamp }
    else c

unfoldable pub batch_cursors :
    List (String × SyncCursor) → List SyncMessage → List (String × SyncCursor)
unfolding advance_cursor
batch_cursors acc [] = acc
batch_cursors acc (m ∷ ms) = batch_cursors (upsert m.session_id (advance_cursor m) acc) ms

-- sync.db and the requests that have gone out, the oldest first.
pub record Run : Type 0 where
  pub sync_db : SyncDb
  pub sent : List SyncPushRequest

-- `push_batch`.
unfoldable pub push_batch :
    SyncClient → String → Server → SyncBatch → Run → Run × Option SyncPushResponse
push_batch c fresh server batch run =
    let (sync, device_id) = get_or_init_device_id fresh run.sync_db in
    elim (effective_api_key c sync) [
      | none ↦ (record run { sync_db = sync }, none)
      | some key ↦
          let request : SyncPushRequest = record {
            bearer = key;
            device_id = device_id;
            encryption = c.encryption;
            batch = batch;
            cursors = batch_cursors [] batch.messages;
          } in
          (record { sync_db = sync; sent = run.sent ++ request ∷ [] }, server run.sent request)
    ]

abbrev pub pass_words : Option SensitiveWordFilter → SyncBatch → SyncBatch
pass_words none batch = batch
pass_words (some w) batch = filter_words w batch

abbrev pub filter_batch : SyncClient → SyncBatch → SyncBatch
filter_batch c batch = pass_words c.word_filter (filter_projects c.project_filter batch)

-- `max()` of what was read, or the cursor.
unfoldable pub max_sequence : ℕ → List SyncMessage → ℕ
unfolding max_of
max_sequence after messages = elim (max_of (map (λ m. m.sequence) messages)) [
  | none ↦ after
  | some n ↦ n
]

-- `collect_and_filter_batch`: the batch, the highest sequence that was read, and how many messages
-- are left. The outer option is an error, the inner one that nothing was read.
unfoldable pub collect_and_filter_batch :
    SyncClient → SessionDb → String → String → ℕ → Option (Option (SyncBatch × ℕ × ℕ))
collect_and_filter_batch c db id path after =
    Option.map
      (λ batch.
        if is_empty batch.messages
        then none
        else let filtered = filter_batch c batch in
          some (filtered, max_sequence after batch.messages, length filtered.messages))
      (collect_batch c.sync_raw c.batch_size id path after db)

-- The variables of the loop in `sync_session`.
pub record Progress : Type 0 where
  pub run : Run
  pub current_cursor : ℕ
  pub total_pushed : ℕ
  pub total_skipped : ℕ

-- How an iteration ends: by an error, by the early return, by `break`, or with the next one.
pub data Next : Type 0 where
  failed returned broke again : Next

-- What a run of one session works on.
pub record Job : Type 0 where
  pub client : SyncClient
  pub db : SessionDb
  pub server : Server
  pub fresh : String
  pub now : ℕ
  pub session_id : String
  pub project_path : String

abbrev move_to : Job → ℕ → Run → Run
move_to j cursor run = record run { sync_db = update_cursor j.session_id cursor j.now run.sync_db }

-- A batch that has messages left is pushed, and the cursor moves only if the server answers.
unfoldable pub push_step : Job → SyncBatch → ℕ → ℕ → Progress → Progress × Next
push_step j batch max_seq batch_len p =
    let (run, answer) = push_batch j.client j.fresh j.server batch p.run in
    elim answer [
      | none ↦ (record p { run = run }, failed)
      | some response ↦ (
        record {
          run = move_to j max_seq run;
          current_cursor = max_seq;
          total_pushed = p.total_pushed + response.accepted;
          total_skipped = p.total_skipped + response.skipped;
        },
        if ltb batch_len j.client.batch_size then broke else again,
      )
    ]

-- One iteration of the loop.
unfoldable pub sync_step : Job → Progress → Progress × Next
unfolding push_step
sync_step j p =
    elim (collect_and_filter_batch j.client j.db j.session_id j.project_path p.current_cursor) [
      | none ↦ (p, failed)
      | some none ↦ (p, returned)
      | some (some (batch, max_seq, batch_len)) ↦
          if is_empty batch.messages
          then (record p { run = move_to j max_seq p.run; current_cursor = max_seq }, again)
          else push_step j batch max_seq batch_len p
    ]

-- The loop; `none` is that the fuel ran out.
unfoldable pub sync_loop : ℕ → Job → Progress → Option (Progress × Next)
sync_loop zero j p = none
sync_loop (suc fuel) j p = elim (sync_step j p).1 [
  | again ↦ sync_loop fuel j (sync_step j p).0
  | failed ↦ some ((sync_step j p).0, failed)
  | returned ↦ some ((sync_step j p).0, returned)
  | broke ↦ some ((sync_step j p).0, broke)
]

pub record BatchStats : Type 0 where
  pub messages_pushed : ℕ
  pub messages_skipped : ℕ

-- After `break` the message count of the session is stored with the cursor.
unfoldable pub close_run : Job → Progress → Run
close_run j p = elim (read_session_message_count j.session_id j.db) [
  | none ↦ p.run
  | some count ↦ record (p.run) {
    sync_db = update_cursor_with_count j.session_id p.current_cursor count j.now p.run.sync_db;
  }
]

unfoldable pub stats : Progress → BatchStats
stats p = record { messages_pushed = p.total_pushed; messages_skipped = p.total_skipped }

unfoldable pub finish : Job → Progress → Next → Run × Option BatchStats
unfolding close_run stats
finish j p failed = (p.run, none)
finish j p returned = (p.run, some (stats p))
finish j p broke = (close_run j p, some (stats p))
finish j p again = (p.run, none)

abbrev pub start : Job → Run → Progress
start j run = record {
  run = run;
  current_cursor = (get_cursor j.session_id run.sync_db).0;
  total_pushed = 0;
  total_skipped = 0;
}

-- `sync_session`: the outer option is the fuel, the inner one an error.
unfoldable pub sync_session : ℕ → Job → Run → Option (Run × Option BatchStats)
unfolding sync_loop finish
sync_session fuel j run = elim (sync_loop fuel j (start j run)) [
  | none ↦ none
  | some (p, next) ↦ some (finish j p next)
]
