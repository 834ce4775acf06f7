-- ===== src/Sync/Tests/Ws.antt =====
-- The theorems of Sync.Client.Ws at the same database.
use ai_cli_session_db.Prelude.{List, [], ◌∷◌, Option, none, some, ◌≡◌, ◌≤◌, ◌⊎◌, arith}
use ai_cli_session_db.Sync.Cursors.{get_cursor}
use ai_cli_session_db.Sync.Client.{BatchStats, collect_and_filter_batch}
use ai_cli_session_db.Sync.Client.Ws.{
  WsJob, WsProgress, PushFrame, Stream, auth_ok, auth_fail, heartbeat_ok, sync_session_ws,
}
use ai_cli_session_db.Sync.Client.Ws.Safe.{AllFrames}
use ai_cli_session_db.Sync.Client.Ws.Unacked.{IsUnrelated, sync_session_ws-unacked}
use ai_cli_session_db.Sync.Tests.{client, database, empty_sync, sevens}

abbrev pub ws_job : Stream → WsJob
ws_job stream = record {
  client = client (some sevens);
  db = database;
  stream = stream;
  now = 50;
  session_id = "s1";
  project_path = "/p";
}

-- Answers of all three kinds.
abbrev unrelated_stream : Stream
unrelated_stream [] frame = some heartbeat_ok
unrelated_stream (f ∷ []) frame = some auth_ok
unrelated_stream (f ∷ g ∷ earlier) frame = some auth_fail

all-IsUnrelated :
    (earlier : List PushFrame) (frame : PushFrame) → IsUnrelated (unrelated_stream earlier frame)
all-IsUnrelated [] frame = tt
all-IsUnrelated (f ∷ []) frame = tt
all-IsUnrelated (f ∷ g ∷ earlier) frame = tt

sync_session_ws-unacked_example :
    (end : WsProgress) × (result : Option BatchStats) × (sync_session_ws 4
        (ws_job unrelated_stream)
        empty_sync
      ≡ some (end, result))
    × ((result ≡ some (record { messages_pushed = 0; messages_skipped = 0 }))
        ⊎ ((result ≡ none)
            × (collect_and_filter_batch
                  (client (some sevens))
                  database
                  "s1"
                  "/p"
                  (get_cursor "s1" end.sync_db).0
                ≡ none)))
    × AllFrames (λ m. m.sequence ≤ (get_cursor "s1" end.sync_db).0) end.sent
sync_session_ws-unacked_example =
    sync_session_ws-unacked (ws_job unrelated_stream) all-IsUnrelated 4 empty_sync (omega arith)
