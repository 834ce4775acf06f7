-- ===== src/Sync/Client/Ws.antt =====
-- src/sync/client.rs and src/sync/mod.rs: the push of one session over the WebSocket stream. The
-- stream is a function of the frames so far; `none` is a stream that fails.
pub mod Listed
pub mod Once
pub mod Safe
pub mod Unacked
use mathlib.Core.Option
use ai_cli_session_db.Prelude.{
  ℕ, zero, suc, ◌+◌, String, List, [], ◌∷◌, ◌++◌, Option, none, some, Bool, true, false, is_empty,
  ltb, if◌then◌else◌,
}
use ai_cli_session_db.Db.{SessionDb}
use ai_cli_session_db.Sync.Batch.{SyncBatch, SyncCursor}
use ai_cli_session_db.Sync.Cursors.{SyncDb, get_cursor, update_cursor}
use ai_cli_session_db.Sync.Client.{
  SyncClient, BatchStats, Next, failed, returned, broke, again, batch_cursors,
  collect_and_filter_batch,
}

pub data SyncAck : Type 0 where
  auth_ok auth_fail push_fail heartbeat_ok : SyncAck
  push_ok : ℕ → ℕ → SyncAck

-- `SyncFrame::Push`.
pub record PushFrame : Type 0 where
  pub batch : SyncBatch
  pub cursors : List (String × SyncCursor)

abbrev pub Stream : Type 0
Stream = List PushFrame → PushFrame → Option SyncAck

pub record WsJob : Type 0 where
  pub client : SyncClient
  pub db : SessionDb
  pub stream : Stream
  pub now : ℕ
  pub session_id : String
  pub project_path : String

-- sync.db, the frames that went out, and the variables of the loop.
pub record WsProgress : Type 0 where
  pub sync_db : SyncDb
  pub sent : List PushFrame
  pub current_cursor : ℕ
  pub total_pushed : ℕ
  pub total_skipped : ℕ

abbrev pub moved : WsJob → ℕ → WsProgress → WsProgress
moved j cursor p = record p {
  sync_db = update_cursor j.session_id cursor j.now p.sync_db;
  current_cursor = cursor;
}

-- The match on the answer; one that is neither of the two for a push is passed over.
unfoldable pub take_ack : WsJob → ℕ → ℕ → WsProgress → Option SyncAck → WsProgress × Next
take_ack j max_seq batch_len p answer =
    let next : Next = if ltb batch_len j.client.batch_size then broke else again in
    elim answer [
      | none ↦ (p, failed)
      | some push_fail ↦ (p, failed)
      | some (push_ok accepted skipped) ↦ (
        record (moved j max_seq p) {
          total_pushed = p.total_pushed + accepted;
          total_skipped = p.total_skipped + skipped;
        },
        next,
      )
      | some auth_ok ↦ (moved j max_seq p, next)
      | some auth_fail ↦ (moved j max_seq p, next)
      | some heartbeat_ok ↦ (moved j max_seq p, next)
    ]

-- One iteration of the loop.
unfoldable pub ws_step : WsJob → WsProgress → WsProgress × Next
unfolding take_ack
ws_step j p =
    elim (collect_and_filter_batch j.client j.db j.session_id j.project_path p.current_cursor) [
      | none ↦ (p, failed)
      | some none ↦ (p, returned)
      | some (some (batch, max_seq, batch_len)) ↦
          if is_empty batch.messages
          then (moved j max_seq p, again)
          else let frame : PushFrame = record {
            batch = batch;
            cursors = batch_cursors [] batch.messages;
          } in
            take_ack j max_seq batch_len (record p { sent = p.sent ++ frame ∷ [] })
              (j.stream p.sent frame)
    ]

unfoldable pub ws_loop : ℕ → WsJob → WsProgress → Option (WsProgress × Next)
unfolding ws_step
ws_loop zero j p = none
ws_loop (suc fuel) j p = elim (ws_step j p).1 [
  | again ↦ ws_loop fuel j (ws_step j p).0
  | failed ↦ some ((ws_step j p).0, failed)
  | returned ↦ some ((ws_step j p).0, returned)
  | broke ↦ some ((ws_step j p).0, broke)
]

abbrev pub ws_result : WsProgress → Next → Option BatchStats
ws_result p failed = none
ws_result p again = none
ws_result p returned =
    some (record { messages_pushed = p.total_pushed; messages_skipped = p.total_skipped })
ws_result p broke =
    some (record { messages_pushed = p.total_pushed; messages_skipped = p.total_skipped })

abbrev pub ws_start : WsJob → SyncDb → WsProgress
ws_start j sync = record {
  sync_db = sync;
  sent = [];
  current_cursor = (get_cursor j.session_id sync).0;
  total_pushed = 0;
  total_skipped = 0;
}

-- `sync_session_ws`: the outer option is the fuel, the inner one an error. The message count of the
-- session is not stored.
unfoldable pub sync_session_ws : ℕ → WsJob → SyncDb → Option (WsProgress × Option BatchStats)
unfolding ws_loop
sync_session_ws fuel j sync = elim (ws_loop fuel j (ws_start j sync)) [
  | none ↦ none
  | some (p, next) ↦ some (p, ws_result p next)
]
