-- ===== src/Sync/Client/Ws/Once.antt =====
-- src/sync/client.rs: one session by its id and a full pass over the WebSocket stream.
use ai_cli_session_db.Prelude.{
  ℕ, ◌<◌, String, List, [], ◌∷◌, ◌++◌, Option, none, some, true, false, ◌≡◌, refl, ◌∙◌, inl, inr,
  map, length, length-retain-le, str_eq, Option-cases, arith,
}
use ai_cli_session_db.Db.{SessionDb, Session, Project, Message}
use ai_cli_session_db.Db.Messages.{max_of}
use ai_cli_session_db.Sync.Cursors.{SyncDb}
use ai_cli_session_db.Sync.Collect.{
  session_path, list_sessions_with_new_messages, list_from, has_new_messages,
}
use ai_cli_session_db.Sync.Filter.{ProjectFilter, is_allowed}
use ai_cli_session_db.Sync.Client.{BatchStats}
use ai_cli_session_db.Sync.Client.Once.{SyncStats, count_session}
use ai_cli_session_db.Sync.Client.Ws.{WsJob, WsProgress, PushFrame, sync_session_ws, ws_start}
use ai_cli_session_db.Sync.Client.Ws.Listed.{sync_session_ws-listed}

-- `sync_single_session_ws`: the session's progress, or nothing to do.
unfoldable pub sync_single_session_ws : ℕ → WsJob → SyncDb → Option (WsProgress × Option BatchStats)
sync_single_session_ws fuel j sync =
    let nothing : BatchStats = record { messages_pushed = 0; messages_skipped = 0 } in
    elim (session_path j.session_id j.db) [
      | none ↦ some (ws_start j sync, some nothing)
      | some path ↦ elim (is_allowed j.client.project_filter path) [
        | false ↦ some (ws_start j sync, some nothing)
        | true ↦ sync_session_ws fuel (record j { project_path = path }) sync
      ]
    ]

-- The job of one session of a pass, whose stream has carried the frames of those before it.
abbrev pub pass_job : WsJob → List PushFrame → String × String → WsJob
pass_job j sent (session_id, project_path) = record j {
  stream = λ earlier frame. j.stream (sent ++ earlier) frame;
  session_id = session_id;
  project_path = project_path;
}

-- sync.db, the frames that went out, and the statistics; no statistics is an error.
abbrev pub Pass : Type 0
Pass = SyncDb × List PushFrame × Option SyncStats

-- Unlike the pass over HTTP this one ends with the first error.
unfoldable pub sync_sessions_ws :
    ℕ → WsJob → List (String × String) → SyncDb → List PushFrame → SyncStats → Option Pass
sync_sessions_ws fuel j [] sync sent stats = some (sync, sent, some stats)
sync_sessions_ws fuel j (s ∷ ss) sync sent stats =
    elim (sync_session_ws fuel (pass_job j sent s) sync) [
      | none ↦ none
      | some (end, none) ↦ some (end.sync_db, sent ++ end.sent, none)
      | some (end, some b) ↦
          sync_sessions_ws fuel j ss end.sync_db (sent ++ end.sent) (count_session (some b) stats)
    ]

abbrev pub no_stats : SyncStats
no_stats = record {
  sessions_synced = 0;
  sessions_failed = 0;
  messages_pushed = 0;
  messages_skipped = 0;
}

unfoldable pub sync_once_ws : ℕ → WsJob → SyncDb → Option Pass
sync_once_ws fuel j sync =
    sync_sessions_ws fuel j (list_sessions_with_new_messages j.client.project_filter sync j.db) sync
      [] no_stats

-- `query_last_db_updated_at`, which the heartbeat sends.
unfoldable pub query_last_db_updated_at : SessionDb → ℕ
query_last_db_updated_at db = elim (max_of (map (λ s. s.updated_at) db.sessions)) [
  | none ↦ 0
  | some t ↦ t
]

-- The same sessions have new messages.
abbrev SameNews : SyncDb → SyncDb → Type 0
SameNews before after = (s : Session) → has_new_messages after s ≡ has_new_messages before s

list_from-SameNews :
    (f : ProjectFilter) (before after : SyncDb) (ps : List Project) (ss : List Session)
    → SameNews before after
    → list_from f after ps ss ≡ list_from f before ps ss
unfolding list_from
list_from-SameNews f before after ps [] h = refl
list_from-SameNews f before after ps (s ∷ ss) h =
    ground (arith, h s, list_from-SameNews f before after ps ss h)

sync_sessions_ws-SameNews :
    (fuel : ℕ) (j : WsJob) (ss : List (String × String)) (sync : SyncDb) (sent : List PushFrame)
    (stats : SyncStats)
    → length j.db.messages < fuel
    → (end : SyncDb) × (frames : List PushFrame) × (result : Option SyncStats) × (sync_sessions_ws
          fuel j ss sync sent stats
        ≡ some (end, frames, result))
      × SameNews sync end
unfolding sync_sessions_ws
sync_sessions_ws-SameNews fuel j [] sync sent stats lt = (sync, sent, some stats, refl, λ s. refl)
sync_sessions_ws-SameNews fuel j (s ∷ ss) sync sent stats lt =
    let mine = length-retain-le (λ (m : Message). str_eq m.session_id s.0) j.db.messages in
    let (p, result, e, same) =
      sync_session_ws-listed fuel (pass_job j sent s) sync (omega (arith, mine, lt)) in
    elim (Option-cases result) [
      | inl f ↦ (p.sync_db, sent ++ p.sent, none, rw (e, f, sync_sessions_ws) refl, same)
      | inr (b, f) ↦
          let (end, frames, done, g, later) =
            sync_sessions_ws-SameNews fuel j ss p.sync_db (sent ++ p.sent)
              (count_session (some b) stats) lt in
          (end, frames, done, rw (e, f, sync_sessions_ws) g, λ t. later t ∙ same t)
    ]

-- With more fuel than the database has messages a full pass over the stream returns, whatever the
-- stream answers, and afterwards the very same sessions are listed for the next pass, however many of
-- them were sent completely.
pub sync_once_ws-listed :
    (fuel : ℕ) (j : WsJob) (sync : SyncDb)
    → length j.db.messages < fuel
    → (end : SyncDb) × (frames : List PushFrame) × (result : Option SyncStats) × (sync_once_ws fuel
          j sync
        ≡ some (end, frames, result))
      × (list_sessions_with_new_messages j.client.project_filter end j.db
          ≡ list_sessions_with_new_messages j.client.project_filter sync j.db)
unfolding sync_once_ws list_sessions_with_new_messages
sync_once_ws-listed fuel j sync lt =
    let listed = list_sessions_with_new_messages j.client.project_filter sync j.db in
    let (end, frames, result, e, same) =
      sync_sessions_ws-SameNews fuel j listed sync [] no_stats lt in
    (
      end,
      frames,
      result,
      e,
      list_from-SameNews j.client.project_filter sync end j.db.projects j.db.sessions same,
    )
