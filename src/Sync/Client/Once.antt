-- ===== src/Sync/Client/Once.antt =====
-- src/sync/client.rs: the push of one session by its id, and of every session with new messages.
use ai_cli_session_db.Prelude.{
  ℕ, ◌+◌, ◌<◌, String, List, [], ◌∷◌, Option, none, some, true, false, ◌≡◌, refl, length, arith,
  str_eq, length-retain-le, Option-cases, Bool-cases, inl, inr,
}
use ai_cli_session_db.Db.{Message}
use ai_cli_session_db.Sync.Collect.{session_path, list_sessions_with_new_messages}
use ai_cli_session_db.Sync.Filter.{is_allowed}
use ai_cli_session_db.Sync.Client.{Run, Job, BatchStats, sync_session}
use ai_cli_session_db.Sync.Client.Total.{sync_session-total}

pub record SyncStats : Type 0 where
  pub sessions_synced : ℕ
  pub sessions_failed : ℕ
  pub messages_pushed : ℕ
  pub messages_skipped : ℕ

abbrev pub job_for : Job → String × String → Job
job_for j (session_id, project_path) = record j {
  session_id = session_id;
  project_path = project_path;
}

-- `sync_single_session`: a session that is missing or not allowed is no error and sends nothing.
unfoldable pub sync_single_session : ℕ → Job → Run → Option (Run × Option BatchStats)
sync_single_session fuel j run =
    let nothing : BatchStats = record { messages_pushed = 0; messages_skipped = 0 } in
    elim (session_path j.session_id j.db) [
      | none ↦ some (run, some nothing)
      | some path ↦ elim (is_allowed j.client.project_filter path) [
        | false ↦ some (run, some nothing)
        | true ↦ sync_session fuel (record j { project_path = path }) run
      ]
    ]

-- With the fuel a push by id returns.
pub sync_single_session-total :
    (fuel : ℕ) (j : Job) (run : Run)
    → length j.db.messages < fuel
    → (end : Run) × (result : Option BatchStats) × (sync_single_session fuel j run
        ≡ some (end, result))
unfolding sync_single_session
sync_single_session-total fuel j run lt =
    let mine = length-retain-le (λ (m : Message). str_eq m.session_id j.session_id) j.db.messages in
    let nothing : BatchStats = record { messages_pushed = 0; messages_skipped = 0 } in
    elim (Option-cases (session_path j.session_id j.db)) [
      | inl e ↦ (run, some nothing, rw (e, sync_single_session) refl)
      | inr (path, e) ↦ elim (Bool-cases (is_allowed j.client.project_filter path)) [
        | inl f ↦
            let (end, result, g) =
              sync_session-total fuel (record j { project_path = path }) run
                (omega (arith, mine, lt)) in
            (end, result, rw (e, f, sync_single_session) g)
        | inr f ↦ (run, some nothing, rw (e, f, sync_single_session) refl)
      ]
    ]

-- The statistics after one session; an error counts and the next session has its turn.
abbrev pub count_session : Option BatchStats → SyncStats → SyncStats
count_session (some b) stats = record stats {
  sessions_synced = stats.sessions_synced + 1;
  messages_pushed = stats.messages_pushed + b.messages_pushed;
  messages_skipped = stats.messages_skipped + b.messages_skipped;
}
count_session none stats = record stats { sessions_failed = stats.sessions_failed + 1 }

unfoldable pub sync_sessions :
    ℕ → Job → List (String × String) → Run → SyncStats → Option (Run × SyncStats)
sync_sessions fuel j [] run stats = some (run, stats)
sync_sessions fuel j (s ∷ ss) run stats = elim (sync_session fuel (job_for j s) run) [
  | none ↦ none
  | some (run', result) ↦ sync_sessions fuel j ss run' (count_session result stats)
]

-- `sync_once`; `none` is that the fuel ran out.
unfoldable pub sync_once : ℕ → Job → Run → Option (Run × SyncStats)
unfolding sync_sessions
sync_once fuel j run =
    sync_sessions fuel j (list_sessions_with_new_messages j.client.project_filter run.sync_db j.db)
      run
      (record {
        sessions_synced = 0;
        sessions_failed = 0;
        messages_pushed = 0;
        messages_skipped = 0;
      })

count_session-one :
    (r : Option BatchStats) (s : SyncStats)
    → (count_session r s).sessions_synced + (count_session r s).sessions_failed
      ≡ s.sessions_synced + s.sessions_failed + 1
count_session-one none s = omega arith
count_session-one (some b) s = omega arith

sync_sessions-total :
    (fuel : ℕ) (j : Job) (ss : List (String × String)) (run : Run) (stats : SyncStats)
    → length j.db.messages < fuel
    → (end : Run) × (done : SyncStats) × (sync_sessions fuel j ss run stats ≡ some (end, done))
      × (done.sessions_synced + done.sessions_failed
          ≡ stats.sessions_synced + stats.sessions_failed + length ss)
unfolding sync_sessions
sync_sessions-total fuel j [] run stats lt = (run, stats, refl, omega arith)
sync_sessions-total fuel j (s ∷ ss) run stats lt =
    let mine = length-retain-le (λ (m : Message). str_eq m.session_id s.0) j.db.messages in
    let (run', result, e) = sync_session-total fuel (job_for j s) run (omega (arith, mine, lt)) in
    let (end, done, f, count) =
      sync_sessions-total fuel j ss run' (count_session result stats) lt in
    (end, done, rw (e, sync_sessions) f, omega (arith, count, count_session-one result stats))

-- With more fuel than the database has messages a full pass returns, whatever the server answers, and
-- each session that was listed has either been synced or failed: an error does not end the pass.
pub sync_once-total :
    (fuel : ℕ) (j : Job) (run : Run)
    → length j.db.messages < fuel
    → (end : Run) × (stats : SyncStats) × (sync_once fuel j run ≡ some (end, stats))
      × (stats.sessions_synced + stats.sessions_failed
          ≡ length (list_sessions_with_new_messages j.client.project_filter run.sync_db j.db))
unfolding sync_once
sync_once-total fuel j run lt =
    let listed = list_sessions_with_new_messages j.client.project_filter run.sync_db j.db in
    let (end, done, e, count) =
      sync_sessions-total fuel j listed run
        (record {
          sessions_synced = 0;
          sessions_failed = 0;
          messages_pushed = 0;
          messages_skipped = 0;
        })
        lt in
    (end, done, e, omega (arith, count))
