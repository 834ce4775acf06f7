-- ===== src/Sync/Tests/Loops.antt =====
-- The theorems of Sync.Worker.Http and Sync.Client.Ws.Once at the same database.
use ai_cli_session_db.Prelude.{List, [], ◌∷◌, Option, none, some, false, ◌≡◌, refl, arith}
use ai_cli_session_db.Sync.Collect.{list_sessions_with_new_messages}
use ai_cli_session_db.Sync.Cursors.{SyncDb, find}
use ai_cli_session_db.Sync.Client.{Job}
use ai_cli_session_db.Sync.Client.Once.{SyncStats}
use ai_cli_session_db.Sync.Client.Ws.{PushFrame, push_ok}
use ai_cli_session_db.Sync.Client.Ws.Once.{sync_once_ws, sync_once_ws-listed}
use ai_cli_session_db.Sync.Worker.Http.{
  HttpLoop, Event, triggered, ticked, shutdown, run_http_event_loop,
}
use ai_cli_session_db.Sync.Worker.Http.Cooldown.{IsKept, failure_of, run_http_event_loop-IsKept}
use ai_cli_session_db.Sync.Batch.{SyncMessage}
use ai_cli_session_db.Sync.Client.Leaving.{MayLeave}
use ai_cli_session_db.Sync.Worker.Stream.{ws_triggered, heartbeat}
use ai_cli_session_db.Sync.Worker.Fallback.{fallback_triggered, expired}
use ai_cli_session_db.Sync.Worker.Main.{
  WorkerState, Round, serving, shutdown_found, streaming, unreachable, run_main_loop,
}
use ai_cli_session_db.Sync.Worker.Main.Requests.{Leaves}
use ai_cli_session_db.Sync.Worker.Main.Safe.{AllLeft, run_main_loop-AllLeft}
use ai_cli_session_db.Sync.Tests.{sevens, client, begin, job, empty_sync, database, no_secrets}
use ai_cli_session_db.Sync.Tests.Ws.{ws_job}

-- A server that is not there.
abbrev failing : Job
failing = record (job none) { server = λ earlier request. none }

abbrev new_loop : HttpLoop
new_loop = record { run = begin; failed = []; log = [] }

-- A failure, a trigger within the cooldown, one behind it, and a periodic pass.
abbrev events : List Event
events =
    triggered failing 0 false ("s1" ∷ [])
    ∷ triggered failing 5000 false ("s1" ∷ [])
    ∷ triggered (job none) 60000 false ("s1" ∷ "s9" ∷ [])
    ∷ ticked failing false
    ∷ shutdown
    ∷ []

new_loop-IsKept : IsKept new_loop
unfolding find failure_of
new_loop-IsKept = record { failures = λ id. refl; spaced = tt }

run_http_event_loop-IsKept_example :
    (done : HttpLoop) × (run_http_event_loop 4 events new_loop ≡ some done) × IsKept done
run_http_event_loop-IsKept_example =
    run_http_event_loop-IsKept 4 events new_loop
      (omega arith, (omega arith, (omega arith, (omega arith, tt)))) new_loop-IsKept

sync_once_ws-listed_example :
    (end : SyncDb) × (frames : List PushFrame) × (result : Option SyncStats) × (sync_once_ws 4
        (ws_job (λ earlier frame. some (push_ok 1 0)))
        empty_sync
      ≡ some (end, frames, result))
    × (list_sessions_with_new_messages no_secrets end database
        ≡ list_sessions_with_new_messages no_secrets empty_sync database)
sync_once_ws-listed_example =
    sync_once_ws-listed 4 (ws_job (λ earlier frame. some (push_ok 1 0))) empty_sync (omega arith)

-- A round over the stream that the server ends, one without a stream, and the shutdown.
abbrev rounds : List Round
rounds =
    serving (job (some sevens)) []
      (streaming (
        ws_triggered (ws_job (λ earlier frame. some (push_ok 1 0))) false ("s1" ∷ [])
        ∷ heartbeat database false
        ∷ []))
      false (expired ∷ [])
    ∷ serving (job (some sevens)) [] unreachable false
        (fallback_triggered (job (some sevens)) ("s1" ∷ []) ∷ expired ∷ [])
    ∷ shutdown_found
    ∷ []

abbrev new_worker : WorkerState
new_worker = record { run = begin; frames = []; reconnect_delay = 1 }

abbrev Leaving : SyncMessage → Type 0
Leaving m = MayLeave (client (some sevens)) database m

may_leave : Leaves Leaving 4 (client (some sevens)) database
may_leave = (omega arith, λ m l. l)

run_main_loop-AllLeft_example :
    (done : WorkerState) × (run_main_loop 4 rounds new_worker ≡ some done) × AllLeft Leaving done
run_main_loop-AllLeft_example =
    run_main_loop-AllLeft Leaving 4 rounds new_worker
      (may_leave, tt, (may_leave, tt), tt, (may_leave, tt, tt, (may_leave, tt), tt))
      (λ r m none_sent. absurd none_sent, λ f m none_sent. absurd none_sent)
