-- ===== src/Sync/Worker/Main/Safe.antt =====
-- src/sync/worker.rs: what leaves the worker in all its ways.
use ai_cli_session_db.Prelude.{
  ℕ, String, List, [], ◌∷◌, ◌++◌, some, Bool, true, false, ◌≡◌, refl, inl, inr, Option-cases,
}
use ai_cli_session_db.Sync.Batch.{SyncMessage}
use ai_cli_session_db.Sync.Cursors.{get_or_init_device_id}
use ai_cli_session_db.Sync.Client.{Job, Run, effective_api_key}
use ai_cli_session_db.Sync.Client.Safe.{AllSent}
use ai_cli_session_db.Sync.Client.Ws.Safe.{AllFrames}
use ai_cli_session_db.Sync.Worker.{next_delay}
use ai_cli_session_db.Sync.Worker.Stream.{After, goes_on, returns}
use ai_cli_session_db.Sync.Worker.Fallback.{FallbackEvent, run_http_fallback_once}
use ai_cli_session_db.Sync.Worker.Main.{
  WorkerState, Connection, unreachable, refused, streaming, Round, shutdown_found, paused_round,
  serving, connect, fall_back, round, run_main_loop,
}
use ai_cli_session_db.Sync.Worker.Main.Requests.{
  Leaves, HttpLeaves, FallbackLeaves, http_run, fallback_run,
}
use ai_cli_session_db.Sync.Worker.Main.Frames.{WsLeaves, stream_frames, AllFrames-append}

abbrev pub ConnectionLeaves : (SyncMessage → Type 0) → ℕ → Connection → Type 0
ConnectionLeaves P fuel unreachable = Unit
ConnectionLeaves P fuel refused = Unit
ConnectionLeaves P fuel (streaming es) = WsLeaves P fuel es

-- In every event of every round the filters let leave only messages with the property, and the fuel
-- is enough.
abbrev pub RoundsLeave : (SyncMessage → Type 0) → ℕ → List Round → Type 0
RoundsLeave P fuel [] = Unit
RoundsLeave P fuel (shutdown_found ∷ rs) = RoundsLeave P fuel rs
RoundsLeave P fuel (paused_round stopped ∷ rs) = RoundsLeave P fuel rs
RoundsLeave P fuel (serving j http connection paused fallback ∷ rs) =
    Leaves P fuel j.client j.db
    × HttpLeaves P fuel http
    × ConnectionLeaves P fuel connection
    × FallbackLeaves P fuel fallback
    × RoundsLeave P fuel rs

-- Every message of a request or a frame has the property.
abbrev pub AllLeft : (SyncMessage → Type 0) → WorkerState → Type 0
AllLeft P w = AllSent P w.run.sent × AllFrames P w.frames

module _ (P : SyncMessage → Type 0) (fuel : ℕ) where
  connect_left :
      (j : Job) (c : Connection) (w : WorkerState)
      → ConnectionLeaves P fuel c
      → AllLeft P w
      → (w' : WorkerState) × (authenticated : Bool) × (after : After) × (connect fuel j c w
          ≡ some (w', authenticated, after))
        × AllLeft P w'
  unfolding connect
  connect_left j unreachable w l h = (w, false, goes_on, refl, h)
  connect_left j refused w l h = (_, false, goes_on, refl, h)
  connect_left j (streaming es) w l (r, f) =
      let (s, after, e, safe) =
        stream_frames P fuel es
          (record {
            sync_db = (get_or_init_device_id j.fresh w.run.sync_db).0;
            sent = [];
            heartbeats = [];
          })
          l (λ g m none_sent. absurd none_sent) in
      (
        record w { run = record (w.run) { sync_db = s.sync_db }; frames = w.frames ++ s.sent },
        true,
        after,
        rw (e, connect) refl,
        (r, AllFrames-append P fuel w.frames s.sent f safe),
      )

  fall_back_left :
      (j : Job) (paused : Bool) (es : List FallbackEvent) (authenticated : Bool) (w : WorkerState)
      → Leaves P fuel j.client j.db
      → FallbackLeaves P fuel es
      → AllLeft P w
      → (w' : WorkerState) × (after : After) × (fall_back fuel j paused es authenticated w
          ≡ some (w', after))
        × AllLeft P w'
  unfolding fall_back
  fall_back_left j paused es authenticated w l ls (r, f) =
      let (run, after, e, safe) = fallback_run P fuel j paused es w.run l ls r in
      go after run e safe
    where
      go :
          (after : After) (run : Run)
          → run_http_fallback_once fuel j paused es w.run ≡ some (run, after)
          → AllSent P run.sent
          → (w' : WorkerState) × (last : After) × (fall_back fuel j paused es authenticated w
              ≡ some (w', last))
            × AllLeft P w'
      go (returns false) run e safe = (
        record w { run = run; reconnect_delay = next_delay authenticated w.reconnect_delay },
        goes_on,
        rw (e, fall_back) refl,
        (safe, f),
      )
      go (returns true) run e safe =
          (record w { run = run }, returns true, rw (e, fall_back) refl, (safe, f))
      go goes_on run e safe =
          (record w { run = run }, returns false, rw (e, fall_back) refl, (safe, f))

  round_left :
      (r : Round) (rs : List Round) (w : WorkerState)
      → RoundsLeave P fuel (r ∷ rs)
      → AllLeft P w
      → ((w' : WorkerState) × (after : After) × (round fuel r w ≡ some (w', after)) × AllLeft P w')
        × RoundsLeave P fuel rs
  unfolding round
  round_left shutdown_found rs w l h = ((w, returns true, refl, h), l)
  round_left (paused_round stopped) rs w l h = ((w, _, refl, h), l)
  round_left (serving j http c paused fallback) rs w (l, hs, cs, fs, ls) h =
      elim (Option-cases (effective_api_key j.client w.run.sync_db)) [
        | inl e ↦
            let (s, g, safe) =
              http_run P fuel http (record { run = w.run; failed = []; log = [] }) hs h.0 in
            ((record w { run = s.run }, returns true, rw (e, g, round) refl, (safe, h.1)), ls)
        | inr (key, e) ↦
            let (w', authenticated, after, g, safe) = connect_left j c w cs h in
            (go authenticated after w' key e g safe, ls)
      ]
    where
      go :
          (authenticated : Bool) (after : After) (w' : WorkerState) (key : String)
          → effective_api_key j.client w.run.sync_db ≡ some key
          → connect fuel j c w ≡ some (w', authenticated, after)
          → AllLeft P w'
          → (last : WorkerState) × (exit : After) × (round fuel (serving j http c paused fallback) w
              ≡ some (last, exit))
            × AllLeft P last
      go true goes_on w' key e g safe = (w', returns false, rw (e, g, round) refl, safe)
      go true (returns true) w' key e g safe = (w', returns true, rw (e, g, round) refl, safe)
      go true (returns false) w' key e g safe =
          let (last, exit, f, all) = fall_back_left j paused fallback true w' l fs safe in
          (last, exit, rw (e, g, round) f, all)
      go false after w' key e g safe =
          let (last, exit, f, all) = fall_back_left j paused fallback false w' l fs safe in
          (last, exit, rw (e, g, round) f, all)

-- Whatever the worker meets, over HTTP, over the stream, in the fallback and paused, and whatever the
-- servers answer, its loop handles it all, given more fuel than each database has messages. Every
-- message of a request or a frame has any property that the messages have which may leave, those of a
-- session in an allowed project and in block mode without a sensitive word.
pub run_main_loop-AllLeft :
    (P : SyncMessage → Type 0) (fuel : ℕ) (rs : List Round) (w : WorkerState)
    → RoundsLeave P fuel rs
    → AllLeft P w
    → (done : WorkerState) × (run_main_loop fuel rs w ≡ some done) × AllLeft P done
unfolding run_main_loop
run_main_loop-AllLeft P fuel [] w l h = (w, refl, h)
run_main_loop-AllLeft P fuel (r ∷ rs) w l h =
    let ((next, after, e, safe), ls) = round_left P fuel r rs w l h in
    go after next e safe (λ n k. run_main_loop-AllLeft P fuel rs n ls k)
  where
    go :
        (after : After) (next : WorkerState)
        → round fuel r w ≡ some (next, after)
        → AllLeft P next
        → ((n : WorkerState)
            → AllLeft P n
            → (done : WorkerState) × (run_main_loop fuel rs n ≡ some done) × AllLeft P done)
        → (done : WorkerState) × (run_main_loop fuel (r ∷ rs) w ≡ some done) × AllLeft P done
    go (returns exit) next e safe later = (next, rw (e, run_main_loop) refl, safe)
    go goes_on next e safe later =
        let (done, f, all) = later next safe in (done, rw (e, run_main_loop) f, all)
