-- ===== src/Sync/Client/Safe.antt =====
-- What every request of a run (sync_session in src/sync/client.rs) may carry.
use ai_cli_session_db.Prelude.{
  ℕ, ◌<◌, ◌≤◌, String, List, [], ◌∷◌, Option, none, some, false, map, length, is_empty, ◌≡◌, refl,
  sym, ap, ◌⊎◌, inl, inr, Has, Has-append, subst, arith, Option-cases, Bool-cases,
}
use ai_cli_session_db.Db.{SessionDb}
use ai_cli_session_db.Db.Messages.{max_of}
use ai_cli_session_db.Sync.Batch.{SyncBatch, SyncMessage}
use ai_cli_session_db.Sync.Collect.{collect_batch}
use ai_cli_session_db.Sync.Cursors.{SyncDb, get_cursor, get_or_init_device_id}
use ai_cli_session_db.Sync.Client.Loop.{sync_loop_inv}
use ai_cli_session_db.Sync.Client.{
  SyncClient, Server, Run, Job, Progress, Next, failed, returned, broke, again, SyncPushRequest,
  push_batch, filter_batch, collect_and_filter_batch, sync_step, push_step, sync_loop, sync_session,
  start, finish, max_sequence, BatchStats, effective_api_key,
}
use ai_cli_session_db.Sync.Client.Leaving.{
  SafeMessage, read_messages-above, collect_batch-parts, filtered_safe,
}

max_sequence-ge :
    (after : ℕ) (ms : List SyncMessage)
    → ((m : SyncMessage) → Has m ms → after < m.sequence)
    → after ≤ max_sequence after ms
unfolding max_sequence
max_sequence-ge after [] h = omega arith
max_sequence-ge after (m ∷ ms) h =
    elim (Option-cases (max_of (map (λ (r : SyncMessage). r.sequence) ms))) [
      | inl e ↦ rw (e, max_of) (omega (arith, h m (inl refl)))
      | inr (n, e) ↦ rw (e, max_of) (omega (arith, h m (inl refl)))
    ]

-- The only new request of a push carries the batch that it was given.
push_batch-sent :
    (c : SyncClient) (fresh : String) (server : Server) (batch : SyncBatch) (run : Run)
    (r : SyncPushRequest)
    → Has r (push_batch c fresh server batch run).0.sent
    → Has r run.sent ⊎ (r.batch ≡ batch)
unfolding push_batch
push_batch-sent c fresh server batch run r h =
    elim (Option-cases (effective_api_key c (get_or_init_device_id fresh run.sync_db).0)) [
      | inl e ↦ inl (rw (e, push_batch) at h)
      | inr (key, e) ↦ elim (Has-append r run.sent _ (rw (e, push_batch) at h)) [
        | inl old ↦ inl old
        | inr (inl new) ↦ inr (ap (λ t. t.batch) new)
        | inr (inr other) ↦ absurd other
      ]
    ]

-- What the loop gets of a read, if there is anything.
pub collected :
    (c : SyncClient) (db : SessionDb) (id path : String) (after : ℕ) (b : SyncBatch) (n len : ℕ)
    → collect_and_filter_batch c db id path after ≡ some (some (b, n, len))
    → (batch : SyncBatch) × (collect_batch c.sync_raw c.batch_size id path after db ≡ some batch)
      × (b ≡ filter_batch c batch)
      × (n ≡ max_sequence after batch.messages)
      × (len ≡ length b.messages)
      × (is_empty batch.messages ≡ false)
unfolding collect_and_filter_batch
collected c db id path after b n len e =
    elim (Option-cases (collect_batch c.sync_raw c.batch_size id path after db)) [
      | inl f ↦ absurd (ground arith)
      | inr (batch, f) ↦ elim (Bool-cases (is_empty batch.messages)) [
        | inl nothing ↦ absurd (ground arith)
        | inr something ↦ (batch, f, ground arith, ground arith, ground arith, something)
      ]
    ]

pub read_ahead :
    (j : Job) (after : ℕ) (batch : SyncBatch)
    → collect_batch j.client.sync_raw j.client.batch_size j.session_id j.project_path after j.db
      ≡ some batch
    → after ≤ max_sequence after batch.messages
read_ahead j after batch e =
    let parts =
      collect_batch-parts j.client.sync_raw j.client.batch_size j.session_id j.project_path after
        j.db batch e in
    max_sequence-ge after batch.messages λ m h.
      read_messages-above j.client.sync_raw j.client.batch_size j.session_id after j.db m
        (subst (Has m) parts.0 h)

SafeMessage-mono :
    (j : Job) (low high : ℕ) (m : SyncMessage)
    → low ≤ high
    → SafeMessage j high m
    → SafeMessage j low m
SafeMessage-mono j low high m le s = record {
  above = omega (arith, s.above);
  allowed = s.allowed;
  clean = s.clean;
}

module _ (P : SyncMessage → Type 0) (j : Job) (cursor : ℕ)
    (leave : (m : SyncMessage) → SafeMessage j cursor m → P m) where
  -- What holds between the iterations, for a property of messages that those of the run have.
  record Inv (p : Progress) : Type 0 where
    ahead : cursor ≤ p.current_cursor
    safe : (r : SyncPushRequest) (m : SyncMessage) → Has r p.run.sent → Has m r.batch.messages → P m

  push_safe :
      (p : Progress) (batch : SyncBatch)
      → collect_batch j.client.sync_raw j.client.batch_size j.session_id j.project_path
          p.current_cursor j.db
        ≡ some batch
      → Inv p
      → (r : SyncPushRequest) (m : SyncMessage)
      → Has r (push_batch j.client j.fresh j.server (filter_batch j.client batch) p.run).0.sent
      → Has m r.batch.messages
      → P m
  push_safe p batch e inv r m h k =
      elim (push_batch-sent j.client j.fresh j.server (filter_batch j.client batch) p.run r h) [
        | inl old ↦ inv.safe r m old k
        | inr new ↦ leave m (
            SafeMessage-mono j cursor p.current_cursor m inv.ahead (
              filtered_safe j p.current_cursor batch m e
                (subst (λ (b : SyncBatch). Has m b.messages) new k)))
      ]

  push_step-Inv :
      (p : Progress) (batch : SyncBatch) (len : ℕ)
      → collect_batch j.client.sync_raw j.client.batch_size j.session_id j.project_path
          p.current_cursor j.db
        ≡ some batch
      → Inv p
      → Inv
          (push_step j
            (filter_batch j.client batch)
            (max_sequence p.current_cursor batch.messages)
            len
            p).0
  unfolding push_step
  push_step-Inv p batch len e inv =
      let ahead = read_ahead j p.current_cursor batch e in
      let safe = push_safe p batch e inv in
      elim (Option-cases
        (push_batch j.client j.fresh j.server (filter_batch j.client batch) p.run).1) [
          | inl f ↦ rw (f, push_step) (record { ahead = inv.ahead; safe = safe })
          | inr (resp, f) ↦
              rw (f, push_step) (record { ahead = omega (arith, ahead, inv.ahead); safe = safe })
        ]

  sync_step-Inv : (p : Progress) → Inv p → Inv (sync_step j p).0
  unfolding sync_step
  sync_step-Inv p inv =
      go (collect_and_filter_batch j.client j.db j.session_id j.project_path p.current_cursor) refl
    where
      go :
          (o : Option (Option (SyncBatch × ℕ × ℕ)))
          → collect_and_filter_batch j.client j.db j.session_id j.project_path p.current_cursor ≡ o
          → Inv (sync_step j p).0
      go none e = rw (e, sync_step) inv
      go (some none) e = rw (e, sync_step) inv
      go (some (some (b, n, len))) e =
          let c = collected j.client j.db j.session_id j.project_path p.current_cursor b n len e in
          let ahead : p.current_cursor ≤ n = rw c.3 (read_ahead j p.current_cursor c.0 c.1) in
          rw (e, sync_step)
            (elim (Bool-cases (is_empty b.messages)) [
              | inl t ↦ rw t (record { ahead = omega (arith, ahead, inv.ahead); safe = inv.safe })
              | inr t ↦ rw t (rw (c.2, c.3) (push_step-Inv p c.0 len c.1 inv))
            ])

finish-sent : (j : Job) (p : Progress) (n : Next) → (finish j p n).0.sent ≡ p.run.sent
unfolding finish
finish-sent j p failed = refl
finish-sent j p returned = refl
finish-sent j p broke = ground arith
finish-sent j p again = refl

-- Every message of the requests has the property.
abbrev pub AllSent : (SyncMessage → Type 0) → List SyncPushRequest → Type 0
AllSent P sent = (r : SyncPushRequest) (m : SyncMessage) → Has r sent → Has m r.batch.messages → P m

-- A property that the messages of a run have, and those that went out before, holds at its end.
pub sync_session-AllSent :
    (P : SyncMessage → Type 0) (fuel : ℕ) (j : Job) (begin run : Run) (stats : Option BatchStats)
    → ((m : SyncMessage) → SafeMessage j (get_cursor j.session_id begin.sync_db).0 m → P m)
    → AllSent P begin.sent
    → sync_session fuel j begin ≡ some (run, stats)
    → AllSent P run.sent
unfolding sync_session
sync_session-AllSent P fuel j begin run stats leave before e r m h k =
    go (sync_loop fuel j (start j begin)) refl
  where
    cursor : ℕ
    cursor = (get_cursor j.session_id begin.sync_db).0

    go : (o : Option (Progress × Next)) → sync_loop fuel j (start j begin) ≡ o → P m
    go none f = absurd (ground arith)
    go (some (q, next)) f =
        let inv =
          sync_loop_inv j (Inv P j cursor leave) (sync_step-Inv P j cursor leave) fuel
            (start j begin) q next (record { ahead = omega arith; safe = before }) f in
        let e' : ◌≡◌ {A = Option (Run × Option BatchStats)} (some (finish j q next))
            (some (run, stats)) =
          rw (f, sync_session) at e in
        let same : finish j q next ≡ (run, stats) = cc (e') in
        inv.safe r m
          (subst (Has r) (finish-sent j q next) (subst (Has r) (ap (λ x. x.0.sent) (sym same)) h)) k

-- Every message that a run sends lies above the cursor it began with, belongs to a session in an
-- allowed project, and in block mode has no sensitive word; whatever the server answers, and
-- whether or not the run ends with an error.
pub sync_session-safe :
    (fuel : ℕ) (j : Job) (sync : SyncDb) (run : Run) (stats : Option BatchStats)
    → sync_session fuel j (record { sync_db = sync; sent = [] }) ≡ some (run, stats)
    → (r : SyncPushRequest) (m : SyncMessage) → Has r run.sent
    → Has m r.batch.messages
    → SafeMessage j (get_cursor j.session_id sync).0 m
sync_session-safe fuel j sync run stats e =
    sync_session-AllSent (SafeMessage j (get_cursor j.session_id sync).0) fuel j
      (record { sync_db = sync; sent = [] }) run stats (λ m s. s) (λ r m nothing. absurd nothing) e
