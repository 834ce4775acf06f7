-- ===== src/Sync/Worker/Stream.antt =====
-- src/sync/worker.rs, run_ws_event_loop: triggers, periodic passes and heartbeats over one WebSocket
-- stream. What select! yields is a list of events, each with the database that it meets and the
-- paused flag as it is read then. An error ends the loop, and with it the stream.
use ai_cli_session_db.Prelude.{
  ℕ, String, List, [], ◌∷◌, ◌++◌, Option, none, some, Bool, true, false, if◌then◌else◌,
}
use ai_cli_session_db.Db.{SessionDb}
use ai_cli_session_db.Sync.Cursors.{SyncDb}
use ai_cli_session_db.Sync.Client.Ws.{WsJob, PushFrame}
use ai_cli_session_db.Sync.Client.Ws.Once.{
  sync_single_session_ws, sync_once_ws, pass_job, query_last_db_updated_at,
}

pub record WsLoop : Type 0 where
  pub sync_db : SyncDb
  pub sent : List PushFrame
  pub heartbeats : List ℕ

-- `paused_at_top` is the flag at the top of the loop. A heartbeat has its database and whether the
-- server answered.
pub data WsEvent : Type 0 where
  ws_shutdown paused_at_top : WsEvent
  ws_triggered : WsJob → Bool → List String → WsEvent
  ws_ticked : WsJob → Bool → WsEvent
  heartbeat : SessionDb → Bool → WsEvent

-- What the loop does next, or the result that it returns.
pub data After : Type 0 where
  goes_on : After
  returns : Bool → After

abbrev pub after_ws : {A : Type 0} → Option A → After
after_ws none = returns false
after_ws (some a) = goes_on

unfoldable pub ws_sync_ids : ℕ → WsJob → List String → WsLoop → Option (WsLoop × After)
ws_sync_ids fuel j [] s = some (s, goes_on)
ws_sync_ids fuel j (id ∷ ids) s =
    elim (sync_single_session_ws fuel (pass_job j s.sent (id, j.project_path)) s.sync_db) [
      | none ↦ none
      | some (end, none) ↦
          some (record s { sync_db = end.sync_db; sent = s.sent ++ end.sent }, returns false)
      | some (end, some stats) ↦
          ws_sync_ids fuel j ids (record s { sync_db = end.sync_db; sent = s.sent ++ end.sent })
    ]

unfoldable pub ws_event : ℕ → WsEvent → WsLoop → Option (WsLoop × After)
ws_event fuel ws_shutdown s = some (s, returns true)
ws_event fuel paused_at_top s = some (s, returns false)
ws_event fuel (ws_triggered j paused ids) s =
    if paused then some (s, goes_on) else ws_sync_ids fuel j ids s
ws_event fuel (ws_ticked j paused) s =
    if paused
    then some (s, goes_on)
    else elim (sync_once_ws fuel (pass_job j s.sent (j.session_id, j.project_path)) s.sync_db) [
      | none ↦ none
      | some (sync, frames, stats) ↦
          some (record s { sync_db = sync; sent = s.sent ++ frames }, after_ws stats)
    ]
ws_event fuel (heartbeat db answered) s = some (
  record s { heartbeats = s.heartbeats ++ query_last_db_updated_at db ∷ [] },
  if answered then goes_on else returns false,
)

-- Without another event the loop waits.
unfoldable pub run_ws_event_loop : ℕ → List WsEvent → WsLoop → Option (WsLoop × After)
run_ws_event_loop fuel [] s = some (s, goes_on)
run_ws_event_loop fuel (e ∷ es) s = elim (ws_event fuel e s) [
  | none ↦ none
  | some (s', returns exit) ↦ some (s', returns exit)
  | some (s', goes_on) ↦ run_ws_event_loop fuel es s'
]
