-- ===== src/Sync/Worker/Main/Requests.antt =====
-- src/sync/worker.rs: the requests of the loop over HTTP and of the fallback.
use ai_cli_session_db.Prelude.{
  ℕ, ◌<◌, String, List, [], ◌∷◌, Option, some, Bool, true, false, length, ◌≡◌, refl, inl, inr,
  Bool-cases,
}
use ai_cli_session_db.Db.{SessionDb}
use ai_cli_session_db.Sync.Batch.{SyncMessage}
use ai_cli_session_db.Sync.Cursors.{find}
use ai_cli_session_db.Sync.Client.{SyncClient, Job, Run, BatchStats}
use ai_cli_session_db.Sync.Client.Leaving.{MayLeave}
use ai_cli_session_db.Sync.Client.Safe.{AllSent}
use ai_cli_session_db.Sync.Client.Once.{
  SyncStats, sync_single_session, sync_single_session-total, sync_once, sync_once-total,
}
use ai_cli_session_db.Sync.Client.Passes.{
  Carries-some, sync_single_session-Carries, sync_once-Carries,
}
use ai_cli_session_db.Sync.Worker.Stream.{After}
use ai_cli_session_db.Sync.Worker.Http.{
  HttpLoop, Event, shutdown, waiting, triggered, ticked, is_cooling, is_ok, settle, attempt,
  periodic, sync_id, sync_ids, http_step, ends_loop, run_http_event_loop,
}
use ai_cli_session_db.Sync.Worker.Fallback.{
  FallbackEvent, fallback_shutdown, expired, fallback_triggered, fallback_ticked, fallback_pass,
  fallback_ids, fallback_loop, run_http_fallback_once,
}

-- The messages that the filters of a client let leave a database have the property, and the fuel is
-- enough for the database.
abbrev pub Leaves : (SyncMessage → Type 0) → ℕ → SyncClient → SessionDb → Type 0
Leaves P fuel c db = (length db.messages < fuel) × ((m : SyncMessage) → MayLeave c db m → P m)

abbrev pub HttpLeaves : (SyncMessage → Type 0) → ℕ → List Event → Type 0
HttpLeaves P fuel [] = Unit
HttpLeaves P fuel (shutdown ∷ es) = HttpLeaves P fuel es
HttpLeaves P fuel (waiting ∷ es) = HttpLeaves P fuel es
HttpLeaves P fuel (triggered j now paused ids ∷ es) =
    Leaves P fuel j.client j.db × HttpLeaves P fuel es
HttpLeaves P fuel (ticked j paused ∷ es) = Leaves P fuel j.client j.db × HttpLeaves P fuel es

abbrev pub FallbackLeaves : (SyncMessage → Type 0) → ℕ → List FallbackEvent → Type 0
FallbackLeaves P fuel [] = Unit
FallbackLeaves P fuel (fallback_shutdown ∷ es) = FallbackLeaves P fuel es
FallbackLeaves P fuel (expired ∷ es) = FallbackLeaves P fuel es
FallbackLeaves P fuel (fallback_triggered j ids ∷ es) =
    Leaves P fuel j.client j.db × FallbackLeaves P fuel es
FallbackLeaves P fuel (fallback_ticked j paused ∷ es) =
    Leaves P fuel j.client j.db × FallbackLeaves P fuel es

module _ (P : SyncMessage → Type 0) (fuel : ℕ) where
  single_run :
      (j : Job) (run : Run)
      → Leaves P fuel j.client j.db
      → AllSent P run.sent
      → (end : Run) × (result : Option BatchStats) × (sync_single_session fuel j run
          ≡ some (end, result))
        × AllSent P end.sent
  single_run j run (lt, leave) h =
      let (end, result, e) = sync_single_session-total fuel j run lt in
      (
        end,
        result,
        e,
        Carries-some P (sync_single_session fuel j run) end result
            (sync_single_session-Carries P fuel j run leave h) e,
      )

  once_run :
      (j : Job) (run : Run)
      → Leaves P fuel j.client j.db
      → AllSent P run.sent
      → (end : Run) × (stats : SyncStats) × (sync_once fuel j run ≡ some (end, stats))
        × AllSent P end.sent
  once_run j run (lt, leave) h =
      let (end, stats, e, count) = sync_once-total fuel j run lt in
      (
        end,
        stats,
        e,
        Carries-some P (sync_once fuel j run) end stats (sync_once-Carries P fuel j run leave h) e,
      )

  ids_run :
      (j : Job) (now : ℕ) (ids : List String) (s : HttpLoop)
      → Leaves P fuel j.client j.db
      → AllSent P s.run.sent
      → (s' : HttpLoop) × (sync_ids fuel j now ids s ≡ some s') × AllSent P s'.run.sent
  unfolding sync_ids sync_id
  ids_run j now [] s l h = (s, refl, h)
  ids_run j now (id ∷ ids) s l h = elim (Bool-cases (is_cooling now (find id s.failed))) [
    | inl e ↦
        let (done, f, safe) = ids_run j now ids s l h in (done, rw (e, sync_id, sync_ids) f, safe)
    | inr e ↦
        let (run, result, f, sent) = single_run (record j { session_id = id }) s.run l h in
        let next : HttpLoop = record {
          run = run;
          failed = settle id now result s.failed;
          log = attempt id now (is_ok result) ∷ s.log;
        } in
        let (done, g, safe) = ids_run j now ids next l sent in
        (done, rw (e, f, sync_id, sync_ids) g, safe)
  ]

  http_event :
      (e : Event) (es : List Event) (s : HttpLoop)
      → HttpLeaves P fuel (e ∷ es)
      → AllSent P s.run.sent
      → ((s' : HttpLoop) × (http_step fuel e s ≡ some s') × AllSent P s'.run.sent)
        × HttpLeaves P fuel es
  unfolding http_step
  http_event shutdown es s l h = ((s, refl, h), l)
  http_event waiting es s l h = ((s, refl, h), l)
  http_event (triggered j now true ids) es s (l, ls) h = ((s, refl, h), ls)
  http_event (triggered j now false ids) es s (l, ls) h = (ids_run j now ids s l h, ls)
  http_event (ticked j true) es s (l, ls) h = ((s, refl, h), ls)
  http_event (ticked j false) es s (l, ls) h =
      let (run, stats, e, sent) = once_run j s.run l h in
      (
        (record { run = run; failed = []; log = periodic ∷ s.log }, rw (e, http_step) refl, sent),
        ls,
      )

  pub http_run :
      (es : List Event) (s : HttpLoop)
      → HttpLeaves P fuel es
      → AllSent P s.run.sent
      → (done : HttpLoop) × (run_http_event_loop fuel es s ≡ some done) × AllSent P done.run.sent
  unfolding run_http_event_loop
  http_run [] s l h = (s, refl, h)
  http_run (e ∷ es) s l h = elim (Bool-cases (ends_loop e)) [
    | inl f ↦ (s, rw f refl, h)
    | inr f ↦
        let ((next, g, sent), ls) = http_event e es s l h in
        let (done, r, safe) = http_run es next ls sent in
        (done, rw (f, g, run_http_event_loop) r, safe)
  ]

  fallback_ids_run :
      (j : Job) (ids : List String) (run : Run)
      → Leaves P fuel j.client j.db
      → AllSent P run.sent
      → (end : Run) × (fallback_ids fuel j ids run ≡ some end) × AllSent P end.sent
  unfolding fallback_ids
  fallback_ids_run j [] run l h = (run, refl, h)
  fallback_ids_run j (id ∷ ids) run l h =
      let (next, result, e, sent) = single_run (record j { session_id = id }) run l h in
      let (end, f, safe) = fallback_ids_run j ids next l sent in (end, rw (e, fallback_ids) f, safe)

  fallback_pass_run :
      (j : Job) (paused : Bool) (run : Run)
      → Leaves P fuel j.client j.db
      → AllSent P run.sent
      → (end : Run) × (fallback_pass fuel j paused run ≡ some end) × AllSent P end.sent
  unfolding fallback_pass
  fallback_pass_run j true run l h = (run, refl, h)
  fallback_pass_run j false run l h =
      let (end, stats, e, sent) = once_run j run l h in (end, rw (e, fallback_pass) refl, sent)

  fallback_loop_run :
      (es : List FallbackEvent) (run : Run)
      → FallbackLeaves P fuel es
      → AllSent P run.sent
      → (end : Run) × (after : After) × (fallback_loop fuel es run ≡ some (end, after))
        × AllSent P end.sent
  unfolding fallback_loop
  fallback_loop_run [] run l h = (run, _, refl, h)
  fallback_loop_run (fallback_shutdown ∷ es) run l h = (run, _, refl, h)
  fallback_loop_run (expired ∷ es) run l h = (run, _, refl, h)
  fallback_loop_run (fallback_triggered j ids ∷ es) run (l, ls) h =
      let (next, e, sent) = fallback_ids_run j ids run l h in
      let (end, after, f, safe) = fallback_loop_run es next ls sent in
      (end, after, rw (e, fallback_loop) f, safe)
  fallback_loop_run (fallback_ticked j paused ∷ es) run (l, ls) h =
      let (next, e, sent) = fallback_pass_run j paused run l h in
      let (end, after, f, safe) = fallback_loop_run es next ls sent in
      (end, after, rw (e, fallback_loop) f, safe)

  pub fallback_run :
      (j : Job) (paused : Bool) (es : List FallbackEvent) (run : Run)
      → Leaves P fuel j.client j.db
      → FallbackLeaves P fuel es
      → AllSent P run.sent
      → (end : Run) × (after : After) × (run_http_fallback_once fuel j paused es run
          ≡ some (end, after))
        × AllSent P end.sent
  unfolding run_http_fallback_once
  fallback_run j paused es run l ls h =
      let (next, e, sent) = fallback_pass_run j paused run l h in
      let (end, after, f, safe) = fallback_loop_run es next ls sent in
      (end, after, rw (e, run_http_fallback_once) f, safe)
