-- ===== src/Sync/Worker/Main.antt =====
-- src/sync/worker.rs, run_main_loop: the stream while there is one, HTTP while there is none, and HTTP
-- for good without a key. What the worker meets is a list of rounds of its loop.
pub mod Requests
pub mod Frames
pub mod Safe
use ai_cli_session_db.Prelude.{
  ℕ, List, [], ◌∷◌, ◌++◌, Option, none, some, Bool, true, false, if◌then◌else◌,
}
use ai_cli_session_db.Sync.Cursors.{get_or_init_device_id}
use ai_cli_session_db.Sync.Client.{Job, Run, effective_api_key}
use ai_cli_session_db.Sync.Client.Ws.{PushFrame}
use ai_cli_session_db.Sync.Worker.{next_delay}
use ai_cli_session_db.Sync.Worker.Http.{Event, run_http_event_loop}
use ai_cli_session_db.Sync.Worker.Stream.{After, goes_on, returns, WsEvent, run_ws_event_loop}
use ai_cli_session_db.Sync.Worker.Fallback.{FallbackEvent, run_http_fallback_once}

-- What the loops change, with the requests and the frames that went out, and `reconnect_delay` in
-- seconds.
pub record WorkerState : Type 0 where
  pub run : Run
  pub frames : List PushFrame
  pub reconnect_delay : ℕ

-- The attempt to connect: it fails, the server refuses the key, or the stream meets events.
pub data Connection : Type 0 where
  unreachable refused : Connection
  streaming : List WsEvent → Connection

-- One iteration: the shutdown or the pause that it finds, or what it meets in each of its ways: the
-- events of the loop over HTTP, of the stream, and of the fallback with its paused flag.
pub data Round : Type 0 where
  shutdown_found : Round
  paused_round : Bool → Round
  serving : Job → List Event → Connection → Bool → List FallbackEvent → Round

-- The stream of one round, with whether it was authenticated. The device id is made up as soon as
-- the connection stands.
unfoldable pub connect : ℕ → Job → Connection → WorkerState → Option (WorkerState × Bool × After)
connect fuel j unreachable w = some (w, false, goes_on)
connect fuel j refused w = some (
  record w { run = record (w.run) { sync_db = (get_or_init_device_id j.fresh w.run.sync_db).0 } },
  false,
  goes_on,
)
connect fuel j (streaming es) w =
    elim (run_ws_event_loop fuel es (record {
      sync_db = (get_or_init_device_id j.fresh w.run.sync_db).0;
      sent = [];
      heartbeats = [];
    })) [
      | none ↦ none
      | some (s, after) ↦ some (
        record w { run = record (w.run) { sync_db = s.sync_db }; frames = w.frames ++ s.sent },
        true,
        after,
      )
    ]

-- The fallback behind a stream that ended, or without one.
unfoldable pub fall_back :
    ℕ → Job → Bool → List FallbackEvent → Bool → WorkerState → Option (WorkerState × After)
fall_back fuel j paused es authenticated w = elim (run_http_fallback_once fuel j paused es w.run) [
  | none ↦ none
  | some (run, returns false) ↦ some (
    record w { run = run; reconnect_delay = next_delay authenticated w.reconnect_delay },
    goes_on,
  )
  | some (run, returns true) ↦ some (record w { run = run }, returns true)
  | some (run, goes_on) ↦ some (record w { run = run }, returns false)
]

-- `returns true` is the end of the main loop; `returns false` that an inner loop still waits for
-- events.
unfoldable pub round : ℕ → Round → WorkerState → Option (WorkerState × After)
round fuel shutdown_found w = some (w, returns true)
round fuel (paused_round stopped) w = some (w, if stopped then returns true else goes_on)
round fuel (serving j http connection paused fallback) w =
    elim (effective_api_key j.client w.run.sync_db) [
      | none ↦
          elim (run_http_event_loop fuel http (record { run = w.run; failed = []; log = [] })) [
            | none ↦ none
            | some s ↦ some (record w { run = s.run }, returns true)
          ]
      | some key ↦ elim (connect fuel j connection w) [
        | none ↦ none
        | some (w', true, goes_on) ↦ some (w', returns false)
        | some (w', true, returns true) ↦ some (w', returns true)
        | some (w', true, returns false) ↦ fall_back fuel j paused fallback true w'
        | some (w', false, after) ↦ fall_back fuel j paused fallback false w'
      ]
    ]

unfoldable pub run_main_loop : ℕ → List Round → WorkerState → Option WorkerState
run_main_loop fuel [] w = some w
run_main_loop fuel (r ∷ rs) w = elim (round fuel r w) [
  | none ↦ none
  | some (w', goes_on) ↦ run_main_loop fuel rs w'
  | some (w', returns exit) ↦ some w'
]
