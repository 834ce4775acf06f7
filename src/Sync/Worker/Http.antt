-- ===== src/Sync/Worker/Http.antt =====
-- src/sync/worker.rs, run_http_event_loop: triggers and periodic passes over HTTP, with a pause after
-- a failure. What select! yields is a list of events; each has the database, the server and the time
-- that it meets, and the paused flag as it is read then. Times are in milliseconds.
pub mod Cooldown
use ai_cli_session_db.Prelude.{
  ℕ, ◌-◌, String, List, [], ◌∷◌, Option, none, some, Bool, true, false, not, retain, str_eq, ltb,
  if◌then◌else◌,
}
use ai_cli_session_db.Sync.Cursors.{find, upsert}
use ai_cli_session_db.Sync.Client.{Job, Run, BatchStats}
use ai_cli_session_db.Sync.Client.Once.{sync_single_session, sync_once}

-- `FAILURE_COOLDOWN`.
abbrev pub failure_cooldown : ℕ
failure_cooldown = 60000

-- What the loop has done, which the source does not keep and the theorems compare its state with: an
-- attempt with its time and whether it succeeded, or a periodic pass, which forgets the failures.
pub data LogLine : Type 0 where
  attempt : String → ℕ → Bool → LogLine
  periodic : LogLine

-- The variables of the loop; the log has its last line first.
pub record HttpLoop : Type 0 where
  pub run : Run
  pub failed : List (String × ℕ)
  pub log : List LogLine

-- The ids of a trigger are a set, in whatever order it is read.
pub data Event : Type 0 where
  shutdown waiting : Event
  triggered : Job → ℕ → Bool → List String → Event
  ticked : Job → Bool → Event

-- `HashMap::remove`.
unfoldable pub forget : String → List (String × ℕ) → List (String × ℕ)
forget id rows = retain (λ r. not (str_eq r.0 id)) rows

-- `now.duration_since(*fail_at) < FAILURE_COOLDOWN`.
abbrev pub is_cooling : ℕ → Option ℕ → Bool
is_cooling now none = false
is_cooling now (some fail_at) = ltb (now - fail_at) failure_cooldown

abbrev pub is_ok : Option BatchStats → Bool
is_ok none = false
is_ok (some stats) = true

abbrev pub settle : String → ℕ → Option BatchStats → List (String × ℕ) → List (String × ℕ)
settle id now none failed = upsert id (λ old. now) failed
settle id now (some stats) failed = forget id failed

-- One id of a trigger; `none` is that the fuel of the push ran out.
unfoldable pub sync_id : ℕ → Job → ℕ → String → HttpLoop → Option HttpLoop
sync_id fuel j now id s =
    if is_cooling now (find id s.failed)
    then some s
    else elim (sync_single_session fuel (record j { session_id = id }) s.run) [
      | none ↦ none
      | some (run, result) ↦ some (record {
        run = run;
        failed = settle id now result s.failed;
        log = attempt id now (is_ok result) ∷ s.log;
      })
    ]

unfoldable pub sync_ids : ℕ → Job → ℕ → List String → HttpLoop → Option HttpLoop
sync_ids fuel j now [] s = some s
sync_ids fuel j now (id ∷ ids) s = elim (sync_id fuel j now id s) [
  | none ↦ none
  | some s' ↦ sync_ids fuel j now ids s'
]

-- A trigger that comes while the worker is paused is read and dropped.
unfoldable pub http_step : ℕ → Event → HttpLoop → Option HttpLoop
http_step fuel shutdown s = some s
http_step fuel waiting s = some s
http_step fuel (triggered j now paused ids) s = if paused then some s else sync_ids fuel j now ids s
http_step fuel (ticked j paused) s = if paused then some s else elim (sync_once fuel j s.run) [
  | none ↦ none
  | some (run, stats) ↦ some (record { run = run; failed = []; log = periodic ∷ s.log })
]

abbrev pub ends_loop : Event → Bool
ends_loop shutdown = true
ends_loop waiting = false
ends_loop (triggered j now paused ids) = false
ends_loop (ticked j paused) = false

unfoldable pub run_http_event_loop : ℕ → List Event → HttpLoop → Option HttpLoop
run_http_event_loop fuel [] s = some s
run_http_event_loop fuel (e ∷ es) s =
    if ends_loop e
    then some s
    else elim (http_step fuel e s) [ none ↦ none | some s' ↦ run_http_event_loop fuel es s' ]
