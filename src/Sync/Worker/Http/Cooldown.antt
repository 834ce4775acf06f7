-- ===== src/Sync/Worker/Http/Cooldown.antt =====
-- src/sync/worker.rs, run_http_event_loop: what the failures that it keeps are, and when a session is
-- tried again.
use ai_cli_session_db.Prelude.{
  ℕ, ◌+◌, ◌≤◌, ◌<◌, String, List, [], ◌∷◌, Option, none, some, true, false, ◌≡◌, refl, sym, ap, ◌∙◌,
  inl, inr, length, str_eq, str_eq_iff, if◌then◌else◌, Bool-cases, Option-cases, arith, subst,
}
use ai_cli_session_db.Sync.Cursors.{find, find-upsert}
use ai_cli_session_db.Sync.Client.{Job, BatchStats}
use ai_cli_session_db.Sync.Client.Once.{
  sync_single_session, sync_once, sync_single_session-total, sync_once-total,
}
use ai_cli_session_db.Sync.Worker.Http.{
  failure_cooldown, LogLine, attempt, periodic, HttpLoop, Event, shutdown, waiting, triggered,
  ticked, forget, is_cooling, is_ok, settle, sync_id, sync_ids, http_step, ends_loop,
  run_http_event_loop,
}

-- The time of the failure that counts, read from the log: the last attempt of the session since the
-- last periodic pass, if it failed.
unfoldable pub failure_of : String → List LogLine → Option ℕ
failure_of id [] = none
failure_of id (periodic ∷ log) = none
failure_of id (attempt other at succeeded ∷ log) =
    if str_eq other id then (if succeeded then none else some at) else failure_of id log

-- A session that failed is tried again only after the cooldown or a periodic pass.
abbrev pub IsCool : Option ℕ → ℕ → Type 0
IsCool none at = Unit
IsCool (some fail_at) at = fail_at + failure_cooldown ≤ at

abbrev pub IsSpaced : List LogLine → Type 0
IsSpaced [] = Unit
IsSpaced (periodic ∷ log) = IsSpaced log
IsSpaced (attempt id at succeeded ∷ log) = IsCool (failure_of id log) at × IsSpaced log

-- The map of failures is what the log says, and the attempts are spaced.
pub record IsKept (s : HttpLoop) : Type 0 where
  pub failures : (id : String) → find id s.failed ≡ failure_of id s.log
  pub spaced : IsSpaced s.log

find-forget :
    (id other : String) (rows : List (String × ℕ))
    → find other (forget id rows) ≡ (if str_eq id other then none else find other rows)
unfolding find forget
find-forget id other [] = ground arith
find-forget id other ((k, v) ∷ rows) =
    ground
      (arith, str_eq_iff k id, str_eq_iff k other, str_eq_iff id other, find-forget id other rows)

find-settle :
    (id other : String) (now : ℕ) (result : Option BatchStats) (failed : List (String × ℕ))
    → find other (settle id now result failed)
      ≡ (if str_eq id other then (if is_ok result then none else some now) else find other failed)
find-settle id other now none failed = find-upsert id other (λ old. now) failed
find-settle id other now (some stats) failed = find-forget id other failed

cool : (now : ℕ) (o : Option ℕ) → is_cooling now o ≡ false → IsCool o now
cool now none e = tt
cool now (some at) e = ground arith

-- A result that is there keeps the map.
abbrev KeptResult : Option HttpLoop → Type 0
KeptResult none = Unit
KeptResult (some s) = IsKept s

sync_id-IsKept :
    (fuel : ℕ) (j : Job) (now : ℕ) (id : String) (s : HttpLoop)
    → IsKept s
    → KeptResult (sync_id fuel j now id s)
unfolding sync_id failure_of
sync_id-IsKept fuel j now id s k = elim (Bool-cases (is_cooling now (find id s.failed))) [
  | inl e ↦ rw (e, sync_id) k
  | inr e ↦ elim (Option-cases (sync_single_session fuel (record j { session_id = id }) s.run)) [
    | inl f ↦ rw (e, f, sync_id) tt
    | inr ((run, result), f) ↦
        rw (e, f, sync_id)
          (record {
            failures = λ other.
                find-settle id other now result s.failed
                ∙ ap (λ o. if str_eq id other then (if is_ok result then none else some now) else o)
                    (k.failures other);
            spaced = (
              cool now (failure_of id s.log) (ap (is_cooling now) (sym (k.failures id)) ∙ e),
              k.spaced,
            );
          })
  ]
]

sync_ids-IsKept :
    (fuel : ℕ) (j : Job) (now : ℕ) (ids : List String) (s : HttpLoop)
    → IsKept s
    → KeptResult (sync_ids fuel j now ids s)
unfolding sync_ids
sync_ids-IsKept fuel j now [] s k = k
sync_ids-IsKept fuel j now (id ∷ ids) s k =
    then_rest (sync_id fuel j now id s) (sync_id-IsKept fuel j now id s k)
      (λ s' k'. sync_ids-IsKept fuel j now ids s' k')
  where
    then_rest :
        (o : Option HttpLoop)
        → KeptResult o
        → ((s' : HttpLoop) → IsKept s' → KeptResult (sync_ids fuel j now ids s'))
        → KeptResult (elim o [ none ↦ none | some s' ↦ sync_ids fuel j now ids s' ])
    then_rest none h f = tt
    then_rest (some s') h f = f s' h

http_step-IsKept :
    (fuel : ℕ) (e : Event) (s : HttpLoop) → IsKept s → KeptResult (http_step fuel e s)
unfolding http_step failure_of find
http_step-IsKept fuel shutdown s k = k
http_step-IsKept fuel waiting s k = k
http_step-IsKept fuel (triggered j now true ids) s k = k
http_step-IsKept fuel (triggered j now false ids) s k = sync_ids-IsKept fuel j now ids s k
http_step-IsKept fuel (ticked j true) s k = k
http_step-IsKept fuel (ticked j false) s k = elim (Option-cases (sync_once fuel j s.run)) [
  | inl f ↦ rw (f, http_step) tt
  | inr ((run, stats), f) ↦ rw (f, http_step) (record { failures = λ id. refl; spaced = k.spaced })
]

-- Every push of the loop has the fuel for its database.
abbrev pub HasFuel : ℕ → List Event → Type 0
HasFuel fuel [] = Unit
HasFuel fuel (shutdown ∷ es) = HasFuel fuel es
HasFuel fuel (waiting ∷ es) = HasFuel fuel es
HasFuel fuel (triggered j now paused ids ∷ es) = (length j.db.messages < fuel) × HasFuel fuel es
HasFuel fuel (ticked j paused ∷ es) = (length j.db.messages < fuel) × HasFuel fuel es

sync_id-total :
    (fuel : ℕ) (j : Job) (now : ℕ) (id : String) (s : HttpLoop)
    → length j.db.messages < fuel
    → (s' : HttpLoop) × (sync_id fuel j now id s ≡ some s')
unfolding sync_id
sync_id-total fuel j now id s lt = elim (Bool-cases (is_cooling now (find id s.failed))) [
  | inl e ↦ (s, rw (e, sync_id) refl)
  | inr e ↦
      let (run, result, f) =
        sync_single_session-total fuel (record j { session_id = id }) s.run lt in
      (
        record {
          run = run;
          failed = settle id now result s.failed;
          log = attempt id now (is_ok result) ∷ s.log;
        },
        rw (e, f, sync_id) refl,
      )
]

sync_ids-total :
    (fuel : ℕ) (j : Job) (now : ℕ) (ids : List String) (s : HttpLoop)
    → length j.db.messages < fuel
    → (s' : HttpLoop) × (sync_ids fuel j now ids s ≡ some s')
unfolding sync_ids
sync_ids-total fuel j now [] s lt = (s, refl)
sync_ids-total fuel j now (id ∷ ids) s lt =
    let (next, e) = sync_id-total fuel j now id s lt in
    let (done, f) = sync_ids-total fuel j now ids next lt in (done, rw (e, sync_ids) f)

http_step-total :
    (fuel : ℕ) (e : Event) (es : List Event) (s : HttpLoop)
    → HasFuel fuel (e ∷ es)
    → ((s' : HttpLoop) × (http_step fuel e s ≡ some s')) × HasFuel fuel es
unfolding http_step
http_step-total fuel shutdown es s h = ((s, refl), h)
http_step-total fuel waiting es s h = ((s, refl), h)
http_step-total fuel (triggered j now true ids) es s (lt, h) = ((s, refl), h)
http_step-total fuel (triggered j now false ids) es s (lt, h) =
    (sync_ids-total fuel j now ids s lt, h)
http_step-total fuel (ticked j true) es s (lt, h) = ((s, refl), h)
http_step-total fuel (ticked j false) es s (lt, h) =
    let (run, stats, e, count) = sync_once-total fuel j s.run lt in
    ((record { run = run; failed = []; log = periodic ∷ s.log }, rw (e, http_step) refl), h)

-- Whatever triggers, periodic passes and pauses come, and whatever the server answers, the loop
-- handles them all if the pushes have fuel for their databases. The failures that it keeps are those
-- of its log: the last attempt of a session since the last periodic pass, if it failed. And no
-- session that failed is tried by a trigger before the cooldown is over, unless a periodic pass came
-- between.
pub run_http_event_loop-IsKept :
    (fuel : ℕ) (es : List Event) (s : HttpLoop)
    → HasFuel fuel es
    → IsKept s
    → (done : HttpLoop) × (run_http_event_loop fuel es s ≡ some done) × IsKept done
unfolding run_http_event_loop
run_http_event_loop-IsKept fuel [] s h k = (s, refl, k)
run_http_event_loop-IsKept fuel (e ∷ es) s h k = elim (Bool-cases (ends_loop e)) [
  | inl f ↦ (s, rw f refl, k)
  | inr f ↦
      let ((next, g), rest) = http_step-total fuel e es s h in
      let kept : IsKept next = subst KeptResult g (http_step-IsKept fuel e s k) in
      let (done, r, d) = run_http_event_loop-IsKept fuel es next rest kept in
      (done, rw (f, g, run_http_event_loop) r, d)
]
