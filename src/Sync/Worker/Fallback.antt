-- ===== src/Sync/Worker/Fallback.antt =====
-- src/sync/worker.rs, run_http_fallback_once: the pushes over HTTP while the worker waits for the next
-- attempt to connect. The triggers look neither at the paused flag nor at earlier failures.
use ai_cli_session_db.Prelude.{
  ℕ, String, List, [], ◌∷◌, Option, none, some, Bool, true, false, if◌then◌else◌,
}
use ai_cli_session_db.Sync.Client.{Job, Run}
use ai_cli_session_db.Sync.Client.Once.{sync_single_session, sync_once}
use ai_cli_session_db.Sync.Worker.Stream.{After, goes_on, returns}

-- `expired` is the deadline or the flag at the top of the loop.
pub data FallbackEvent : Type 0 where
  fallback_shutdown expired : FallbackEvent
  fallback_triggered : Job → List String → FallbackEvent
  fallback_ticked : Job → Bool → FallbackEvent

unfoldable pub fallback_pass : ℕ → Job → Bool → Run → Option Run
fallback_pass fuel j paused run =
    if paused
    then some run
    else elim (sync_once fuel j run) [ none ↦ none | some (end, stats) ↦ some end ]

unfoldable pub fallback_ids : ℕ → Job → List String → Run → Option Run
fallback_ids fuel j [] run = some run
fallback_ids fuel j (id ∷ ids) run =
    elim (sync_single_session fuel (record j { session_id = id }) run) [
      | none ↦ none
      | some (end, result) ↦ fallback_ids fuel j ids end
    ]

unfoldable pub fallback_loop : ℕ → List FallbackEvent → Run → Option (Run × After)
fallback_loop fuel [] run = some (run, goes_on)
fallback_loop fuel (fallback_shutdown ∷ es) run = some (run, returns true)
fallback_loop fuel (expired ∷ es) run = some (run, returns false)
fallback_loop fuel (fallback_triggered j ids ∷ es) run = elim (fallback_ids fuel j ids run) [
  | none ↦ none
  | some end ↦ fallback_loop fuel es end
]
fallback_loop fuel (fallback_ticked j paused ∷ es) run = elim (fallback_pass fuel j paused run) [
  | none ↦ none
  | some end ↦ fallback_loop fuel es end
]

-- A pass on entering, then the loop.
unfoldable pub run_http_fallback_once :
    ℕ → Job → Bool → List FallbackEvent → Run → Option (Run × After)
run_http_fallback_once fuel j paused es run = elim (fallback_pass fuel j paused run) [
  | none ↦ none
  | some end ↦ fallback_loop fuel es end
]
