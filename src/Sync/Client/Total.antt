-- ===== src/Sync/Client/Total.antt =====
-- sync_session (src/sync/client.rs) returns: every further iteration leaves fewer messages.
use ai_cli_session_db.Prelude.{
  String, ℕ, zero, suc, ◌<◌, List, [], ◌∷◌, Option, none, some, Bool, false, map, length, is_empty,
  take, ◌≡◌, refl, sym, ap, ◌∙◌, inl, inr, Has, Has-retain, subst, arith, ltb, Option-cases, ◌≤◌,
  length-retain-le, Bool-cases,
}
use ai_cli_session_db.Prelude.Sorting.{left_of, length-left_of-lt, length-sort_by}
use ai_cli_session_db.Db.{SessionDb, Message}
use ai_cli_session_db.Db.Messages.{in_session}
use ai_cli_session_db.Sync.Batch.{SyncBatch}
use ai_cli_session_db.Sync.Collect.{sync_message}
use ai_cli_session_db.Sync.Client.Safe.{collected}
use ai_cli_session_db.Sync.Client.Leaving.{collect_batch-parts}
use ai_cli_session_db.Sync.Client.Chunks.{seq, ordered, read_messages_lem, read_top}
use ai_cli_session_db.Sync.Client.Loop.{sync_loop-suc}
use ai_cli_session_db.Sync.Client.{
  SyncClient, Job, Run, Progress, Next, failed, returned, broke, again, sync_step, push_step,
  sync_loop, sync_session, collect_and_filter_batch, push_batch, max_sequence, start, finish,
  BatchStats,
}

-- What an iteration that asks for another one has read, and where the cursor is then.
Continues : Job → Progress → Type 0
Continues j p =
    (batch : SyncBatch) × (n : ℕ) × (len : ℕ) × (collect_and_filter_batch j.client j.db j.session_id
        j.project_path p.current_cursor
      ≡ some (some (batch, n, len)))
    × ((sync_step j p).0.current_cursor ≡ n)

push_step-again :
    (j : Job) (b : SyncBatch) (n len : ℕ) (p : Progress)
    → (push_step j b n len p).1 ≡ again
    → (push_step j b n len p).0.current_cursor ≡ n
unfolding push_step
push_step-again j b n len p e =
    elim (Option-cases (push_batch j.client j.fresh j.server b p.run).1) [
      | inl f ↦ absurd (ground arith)
      | inr (r, f) ↦ rw (f, push_step)
    ]

step_again : (j : Job) (p : Progress) → (sync_step j p).1 ≡ again → Continues j p
unfolding Continues sync_step
step_again j p h =
    go (collect_and_filter_batch j.client j.db j.session_id j.project_path p.current_cursor) refl
  where
    go :
        (o : Option (Option (SyncBatch × ℕ × ℕ)))
        → collect_and_filter_batch j.client j.db j.session_id j.project_path p.current_cursor ≡ o
        → Continues j p
    go none e = absurd (ground arith)
    go (some none) e = absurd (ground arith)
    go (some (some (b, n, len))) e =
        let cursor : (sync_step j p).0.current_cursor ≡ n =
          rw (e, sync_step)
            (elim (Bool-cases (is_empty b.messages)) [
              | inl t ↦ rw t refl
              | inr t ↦ rw t (push_step-again j b n len p (rw t at (rw (e, sync_step) at h)))
            ]) in
        (b, n, len, e, cursor)

first_read :
    (raw : Bool) (n : ℕ) (xs : List Message)
    → is_empty (map (sync_message raw) (take n xs)) ≡ false
    → (k : ℕ) × (x : Message) × (rest : List Message) × (n ≡ suc k) × (xs ≡ x ∷ rest)
first_read raw zero xs e = absurd (cc)
first_read raw (suc k) [] e = absurd (cc)
first_read raw (suc k) (x ∷ rest) e = (k, x, rest, refl, refl)

abbrev pub left : Job → ℕ → List Message
left j cursor = left_of seq cursor (ordered j.session_id j.db)

-- A read that has messages moves the cursor past at least one of them.
pub collected_less :
    (c : SyncClient) (db : SessionDb) (id path : String) (after : ℕ) (b : SyncBatch) (n len : ℕ)
    → collect_and_filter_batch c db id path after ≡ some (some (b, n, len))
    → length (left_of seq n (ordered id db)) < length (left_of seq after (ordered id db))
collected_less c db id path after b n len e =
    let (batch, read, _, cursor, _, some_read) = collected c db id path after b n len e in
    let parts = collect_batch-parts c.sync_raw c.batch_size id path after db batch read in
    let ms = parts.0 ∙ read_messages_lem c.sync_raw c.batch_size id after db in
    let all = ordered id db in
    let (k, x, rest, size, shape) =
      first_read c.sync_raw c.batch_size (left_of seq after all)
        (subst (λ l. is_empty l ≡ false) ms some_read) in
    let (top, _, same, lt, ge) = read_top c.sync_raw k after all x rest shape in
    let moved : n ≡ top =
      cursor
      ∙ ap (max_sequence after) ms
      ∙ ap
          (λ m. max_sequence after (map (sync_message c.sync_raw) (take m (left_of seq after all))))
          size
      ∙ same in
    let member =
      Has-retain (λ (r : Message). ltb after r.sequence) x all
        (subst (Has x) (sym shape) (inl refl)) in
    length-left_of-lt seq after n x all member.0 (ground (arith, member.1))
      (omega (arith, moved, ge))

-- Every further iteration leaves fewer messages above the cursor.
again_less :
    (j : Job) (p : Progress)
    → (sync_step j p).1 ≡ again
    → length (left j (sync_step j p).0.current_cursor) < length (left j p.current_cursor)
unfolding Continues
again_less j p h =
    let (b, n, len, read, cursor) = step_again j p h in
    let less =
      collected_less j.client j.db j.session_id j.project_path p.current_cursor b n len read in
    subst (λ k. length (left j k) < length (left j p.current_cursor)) (sym cursor) less

pub sync_loop_total :
    (fuel : ℕ) (j : Job) (p : Progress)
    → length (left j p.current_cursor) < fuel
    → (q : Progress) × (next : Next) × (sync_loop fuel j p ≡ some (q, next))
sync_loop_total zero j p lt = absurd (omega arith)
sync_loop_total (suc fuel) j p lt =
    go (sync_step j p).1 refl (sync_loop_total fuel j (sync_step j p).0)
  where
    go :
        (n : Next)
        → (sync_step j p).1 ≡ n
        → (length (left j (sync_step j p).0.current_cursor) < fuel
            → (q : Progress) × (next : Next) × (sync_loop fuel j (sync_step j p).0
                ≡ some (q, next)))
        → (q : Progress) × (next : Next) × (sync_loop (suc fuel) j p ≡ some (q, next))
    go again e rest =
        let r = rest (omega (arith, again_less j p e)) in
        (r.0, r.1, sync_loop-suc j fuel p again e ∙ r.2)
    go failed e rest = ((sync_step j p).0, failed, sync_loop-suc j fuel p failed e)
    go returned e rest = ((sync_step j p).0, returned, sync_loop-suc j fuel p returned e)
    go broke e rest = ((sync_step j p).0, broke, sync_loop-suc j fuel p broke e)

pub length-left :
    (j : Job) (cursor : ℕ) → length (left j cursor) ≤ length (in_session j.session_id j.db.messages)
length-left j cursor = omega (
  arith,
  length-retain-le (λ (m : Message). ltb cursor m.sequence) (ordered j.session_id j.db),
  length-sort_by seq (in_session j.session_id j.db.messages),
)

-- A run returns, by the end or by an error, after at most one iteration more than the session has
-- messages, whatever the server answers and the filters drop.
pub sync_session-total :
    (fuel : ℕ) (j : Job) (run : Run)
    → length (in_session j.session_id j.db.messages) < fuel
    → (r : Run) × (stats : Option BatchStats) × (sync_session fuel j run ≡ some (r, stats))
unfolding sync_session
sync_session-total fuel j run lt =
    let p = start j run in
    let r = sync_loop_total fuel j p (omega (arith, length-left j p.current_cursor)) in
    let f = finish j r.0 r.1 in (f.0, f.1, rw (r.2, sync_session))
