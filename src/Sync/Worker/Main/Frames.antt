-- ===== src/Sync/Worker/Main/Frames.antt =====
-- src/sync/worker.rs: the frames of the loop over the WebSocket stream.
use ai_cli_session_db.Prelude.{
  ℕ, String, List, [], ◌∷◌, ◌++◌, Option, none, some, true, false, str_eq, ◌≡◌, refl, inl, inr,
  Has-append, length-retain-le, Bool-cases, Option-cases, arith,
}
use ai_cli_session_db.Db.{Message}
use ai_cli_session_db.Sync.Batch.{SyncMessage}
use ai_cli_session_db.Sync.Collect.{session_path, list_sessions_with_new_messages}
use ai_cli_session_db.Sync.Cursors.{SyncDb}
use ai_cli_session_db.Sync.Filter.{is_allowed}
use ai_cli_session_db.Sync.Client.{BatchStats}
use ai_cli_session_db.Sync.Client.Once.{SyncStats, count_session}
use ai_cli_session_db.Sync.Client.Ws.{WsJob, WsProgress, PushFrame, sync_session_ws, ws_start}
use ai_cli_session_db.Sync.Client.Ws.Listed.{sync_session_ws-listed}
use ai_cli_session_db.Sync.Client.Ws.Once.{
  sync_single_session_ws, sync_sessions_ws, sync_once_ws, pass_job, no_stats,
}
use ai_cli_session_db.Sync.Client.Ws.Safe.{AllFrames, sync_session_ws-AllFrames}
use ai_cli_session_db.Sync.Worker.Stream.{
  WsLoop, WsEvent, ws_shutdown, paused_at_top, ws_triggered, ws_ticked, heartbeat, After, goes_on,
  returns, after_ws, ws_sync_ids, ws_event, run_ws_event_loop,
}
use ai_cli_session_db.Sync.Worker.Main.Requests.{Leaves}

abbrev pub WsLeaves : (SyncMessage → Type 0) → ℕ → List WsEvent → Type 0
WsLeaves P fuel [] = Unit
WsLeaves P fuel (ws_shutdown ∷ es) = WsLeaves P fuel es
WsLeaves P fuel (paused_at_top ∷ es) = WsLeaves P fuel es
WsLeaves P fuel (heartbeat db answered ∷ es) = WsLeaves P fuel es
WsLeaves P fuel (ws_triggered j paused ids ∷ es) = Leaves P fuel j.client j.db × WsLeaves P fuel es
WsLeaves P fuel (ws_ticked j paused ∷ es) = Leaves P fuel j.client j.db × WsLeaves P fuel es

module _ (P : SyncMessage → Type 0) (fuel : ℕ) where
  pub AllFrames-append :
      (xs ys : List PushFrame) → AllFrames P xs → AllFrames P ys → AllFrames P (xs ++ ys)
  AllFrames-append xs ys h k f m n l = elim (Has-append f xs ys n) [
    | inl old ↦ h f m old l
    | inr new ↦ k f m new l
  ]

  session_frames :
      (j : WsJob) (sync : SyncDb)
      → Leaves P fuel j.client j.db
      → (end : WsProgress) × (result : Option BatchStats) × (sync_session_ws fuel j sync
          ≡ some (end, result))
        × AllFrames P end.sent
  session_frames j sync (lt, leave) =
      let mine =
        length-retain-le (λ (m : Message). str_eq m.session_id j.session_id) j.db.messages in
      let (end, result, e, same) = sync_session_ws-listed fuel j sync (omega (arith, mine, lt)) in
      (end, result, e, sync_session_ws-AllFrames P j leave fuel sync end result e)

  single_frames :
      (j : WsJob) (sync : SyncDb)
      → Leaves P fuel j.client j.db
      → (end : WsProgress) × (result : Option BatchStats) × (sync_single_session_ws fuel j sync
          ≡ some (end, result))
        × AllFrames P end.sent
  unfolding sync_single_session_ws
  single_frames j sync l =
      let nothing : BatchStats = record { messages_pushed = 0; messages_skipped = 0 } in
      elim (Option-cases (session_path j.session_id j.db)) [
        | inl e ↦ (
          ws_start j sync,
          some nothing,
          rw (e, sync_single_session_ws) refl,
          λ f m none_sent. absurd none_sent,
        )
        | inr (path, e) ↦ elim (Bool-cases (is_allowed j.client.project_filter path)) [
          | inl f ↦
              let (end, result, g, safe) =
                session_frames (record j { project_path = path }) sync l in
              (end, result, rw (e, f, sync_single_session_ws) g, safe)
          | inr f ↦ (
            ws_start j sync,
            some nothing,
            rw (e, f, sync_single_session_ws) refl,
            λ g m none_sent. absurd none_sent,
          )
        ]
      ]

  sessions_frames :
      (j : WsJob) (ss : List (String × String)) (sync : SyncDb) (sent : List PushFrame)
      (stats : SyncStats)
      → Leaves P fuel j.client j.db
      → AllFrames P sent
      → (end : SyncDb) × (frames : List PushFrame) × (result : Option SyncStats) × (sync_sessions_ws
            fuel j ss sync sent stats
          ≡ some (end, frames, result))
        × AllFrames P frames
  unfolding sync_sessions_ws
  sessions_frames j [] sync sent stats l h = (sync, sent, some stats, refl, h)
  sessions_frames j (s ∷ ss) sync sent stats l h =
      let (p, result, e, mine) = session_frames (pass_job j sent s) sync l in
      let all = AllFrames-append sent p.sent h mine in
      elim (Option-cases result) [
        | inl f ↦ (p.sync_db, sent ++ p.sent, none, rw (e, f, sync_sessions_ws) refl, all)
        | inr (b, f) ↦
            let (end, frames, done, g, safe) =
              sessions_frames j ss p.sync_db (sent ++ p.sent) (count_session (some b) stats) l
                all in
            (end, frames, done, rw (e, f, sync_sessions_ws) g, safe)
      ]

  once_frames :
      (j : WsJob) (sync : SyncDb)
      → Leaves P fuel j.client j.db
      → (end : SyncDb) × (frames : List PushFrame) × (result : Option SyncStats) × (sync_once_ws
            fuel j sync
          ≡ some (end, frames, result))
        × AllFrames P frames
  unfolding sync_once_ws
  once_frames j sync l =
      sessions_frames j (list_sessions_with_new_messages j.client.project_filter sync j.db) sync []
        no_stats l (λ f m none_sent. absurd none_sent)

  ids_frames :
      (j : WsJob) (ids : List String) (s : WsLoop)
      → Leaves P fuel j.client j.db
      → AllFrames P s.sent
      → (s' : WsLoop) × (after : After) × (ws_sync_ids fuel j ids s ≡ some (s', after))
        × AllFrames P s'.sent
  unfolding ws_sync_ids
  ids_frames j [] s l h = (s, goes_on, refl, h)
  ids_frames j (id ∷ ids) s l h =
      let (end, result, e, mine) =
        single_frames (pass_job j s.sent (id, j.project_path)) s.sync_db l in
      let all = AllFrames-append s.sent end.sent h mine in
      let next : WsLoop = record s { sync_db = end.sync_db; sent = s.sent ++ end.sent } in
      elim (Option-cases result) [
        | inl f ↦ (next, returns false, rw (e, f, ws_sync_ids) refl, all)
        | inr (b, f) ↦
            let (s', after, g, safe) = ids_frames j ids next l all in
            (s', after, rw (e, f, ws_sync_ids) g, safe)
      ]

  event_frames :
      (e : WsEvent) (es : List WsEvent) (s : WsLoop)
      → WsLeaves P fuel (e ∷ es)
      → AllFrames P s.sent
      → ((s' : WsLoop) × (after : After) × (ws_event fuel e s ≡ some (s', after))
          × AllFrames P s'.sent)
        × WsLeaves P fuel es
  unfolding ws_event
  event_frames ws_shutdown es s l h = ((s, returns true, refl, h), l)
  event_frames paused_at_top es s l h = ((s, returns false, refl, h), l)
  event_frames (ws_triggered j true ids) es s (l, ls) h = ((s, goes_on, refl, h), ls)
  event_frames (ws_triggered j false ids) es s (l, ls) h = (ids_frames j ids s l h, ls)
  event_frames (ws_ticked j true) es s (l, ls) h = ((s, goes_on, refl, h), ls)
  event_frames (ws_ticked j false) es s (l, ls) h =
      let (end, frames, result, e, mine) =
        once_frames (pass_job j s.sent (j.session_id, j.project_path)) s.sync_db l in
      (
        (
          record s { sync_db = end; sent = s.sent ++ frames },
          after_ws result,
          rw (e, ws_event) refl,
          AllFrames-append s.sent frames h mine,
        ),
        ls,
      )
  event_frames (heartbeat db answered) es s l h = ((_, _, refl, h), l)

  pub stream_frames :
      (es : List WsEvent) (s : WsLoop)
      → WsLeaves P fuel es
      → AllFrames P s.sent
      → (done : WsLoop) × (after : After) × (run_ws_event_loop fuel es s ≡ some (done, after))
        × AllFrames P done.sent
  unfolding run_ws_event_loop
  stream_frames [] s l h = (s, goes_on, refl, h)
  stream_frames (e ∷ es) s l h =
      let ((next, after, g, safe), ls) = event_frames e es s l h in
      go after next g safe (λ n k. stream_frames es n ls k)
    where
      go :
          (after : After) (next : WsLoop)
          → ws_event fuel e s ≡ some (next, after)
          → AllFrames P next.sent
          → ((n : WsLoop)
              → AllFrames P n.sent
              → (done : WsLoop) × (last : After) × (run_ws_event_loop fuel es n ≡ some (done, last))
                × AllFrames P done.sent)
          → (done : WsLoop) × (last : After) × (run_ws_event_loop fuel (e ∷ es) s
              ≡ some (done, last))
            × AllFrames P done.sent
      go (returns exit) next g safe later =
          (next, returns exit, rw (g, run_ws_event_loop) refl, safe)
      go goes_on next g safe later =
          let (done, last, r, all) = later next safe in
          (done, last, rw (g, run_ws_event_loop) r, all)
