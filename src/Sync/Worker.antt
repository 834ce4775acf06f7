-- ===== src/Sync/Worker.antt =====
-- src/sync/worker.rs: the paused flag with its copy in sync.db, the delay before a reconnect, and
-- the sessions that the HTTP loop tries. The channels, timers and the WebSocket are left out.
pub mod Http
pub mod Stream
pub mod Fallback
pub mod Main
use native.Mathlib.Nat.{pow-suc}
use ai_cli_session_db.Prelude.{
  ℕ, suc, ◌+◌, ◌*◌, ◌^◌, min, String, List, [], ◌∷◌, Bool, true, false, ◌≡◌, refl, ap, ◌∙◌, inl,
  inr, str_eq, str_eq_refl, if◌then◌else◌, arith, is_some_and, Bool-cases,
}
use ai_cli_session_db.Sync.Cursors.{SyncDb, get_state, set_state, find, find-upsert, upsert, reset}

pub record SyncWorker : Type 0 where
  pub running : Bool
  pub paused : Bool

-- `SyncWorker::start`: a disabled worker does not run and restores nothing.
unfoldable pub start_worker : Bool → SyncDb → SyncWorker
start_worker enabled db =
    if enabled
    then record {
      running = true;
      paused = is_some_and (get_state "sync_paused" db) (λ v. str_eq v "true");
    }
    else record { running = false; paused = false }

unfoldable pub pause : SyncWorker × SyncDb → SyncWorker × SyncDb
pause (w, db) = (record w { paused = true }, set_state "sync_paused" "true" db)

unfoldable pub resume : SyncWorker × SyncDb → SyncWorker × SyncDb
resume (w, db) = (record w { paused = false }, set_state "sync_paused" "false" db)

-- What can happen to the flag while the worker runs, in any order.
pub data Command : Type 0 where
  pausing resuming resetting : Command
  storing : String → String → Command

-- `storing` is a write of another key, `resetting` is `SyncDb::reset`.
abbrev pub command : Command → SyncWorker × SyncDb → SyncWorker × SyncDb
command pausing s = pause s
command resuming s = resume s
command resetting (w, db) = (w, reset db)
command (storing key value) (w, db) =
    if str_eq key "sync_paused" then (w, db) else (w, set_state key value db)

abbrev pub commands : List Command → SyncWorker × SyncDb → SyncWorker × SyncDb
commands [] s = s
commands (c ∷ cs) s = commands cs (command c s)

abbrev pub Kept : SyncWorker × SyncDb → Type 0
Kept (w, db) = (start_worker true db ≡ w) × (w.running ≡ true)

pub command-Kept : (c : Command) (s : SyncWorker × SyncDb) → Kept s → Kept (command c s)
unfolding start_worker pause resume reset get_state set_state
command-Kept pausing (w, db) k = (
  ground (
    arith,
    k.1,
    find-upsert "sync_paused" "sync_paused" (λ old. "true") db.sync_state,
    str_eq_refl "sync_paused",
  ),
  k.1,
)
command-Kept resuming (w, db) k = (
  ground (
    arith,
    k.1,
    find-upsert "sync_paused" "sync_paused" (λ old. "false") db.sync_state,
    str_eq_refl "sync_paused",
  ),
  k.1,
)
command-Kept resetting (w, db) k = k
command-Kept (storing key value) (w, db) k = elim (Bool-cases (str_eq key "sync_paused")) [
  | inl e ↦ rw e k
  | inr e ↦
      let same : find "sync_paused" (upsert key (λ old. value) db.sync_state)
          ≡ find "sync_paused" db.sync_state =
        find-upsert key "sync_paused" (λ old. value) db.sync_state ∙ rw e refl in
      rw e (
        ap (λ o. record { running = true; paused = is_some_and o (λ v. str_eq v "true") }) same
            ∙ k.0,
        k.1,
      )
]

commands-Kept : (cs : List Command) (s : SyncWorker × SyncDb) → Kept s → Kept (commands cs s)
commands-Kept [] s k = k
commands-Kept (c ∷ cs) s k = commands-Kept cs (command c s) (command-Kept c s k)

-- However a running worker was paused and resumed, and whatever else was stored or reset, starting
-- it again from its sync.db gives the state that it had.
pub start_worker-commands :
    (cs : List Command) (db : SyncDb)
    → let (w, later) = commands cs (start_worker true db, db) in start_worker true later ≡ w
unfolding start_worker
start_worker-commands cs db = (commands-Kept cs (start_worker true db, db) (refl, refl)).0

-- `reconnect_delay` of `run_main_loop`, in seconds: a pass ends with an authenticated stream or not.
abbrev pub next_delay : Bool → ℕ → ℕ
next_delay authenticated delay = if authenticated then min (1 * 2) 60 else min (delay * 2) 60

abbrev pub delays : List Bool → ℕ → ℕ
delays [] delay = delay
delays (a ∷ ps) delay = delays ps (next_delay a delay)

-- The passes since the last one with a stream, that one included, and 0 if there was none.
abbrev pub failures : ℕ → List Bool → ℕ
failures n [] = n
failures n (true ∷ ps) = failures 1 ps
failures n (false ∷ ps) = failures (n + 1) ps

doubled_delay : (n : ℕ) → min (min (2 ^ n) 60 * 2) 60 ≡ min (2 ^ (n + 1)) 60
doubled_delay n =
    let next = ap (λ k. 2 ^ k) {x = n + 1} {y = suc n} (omega arith) ∙ pow-suc 2 n in
    omega (arith, next)

delays_from : (ps : List Bool) (n : ℕ) → delays ps (min (2 ^ n) 60) ≡ min (2 ^ failures n ps) 60
delays_from [] n = refl
delays_from (true ∷ ps) n = delays_from ps 1
delays_from (false ∷ ps) n = ap (delays ps) (doubled_delay n) ∙ delays_from ps (n + 1)

-- The delay doubles with every pass after the last authenticated stream, beginning at one second
-- and never above 60.
pub delays_lem : (ps : List Bool) → delays ps 1 ≡ min (2 ^ failures 0 ps) 60
delays_lem ps = delays_from ps 0
