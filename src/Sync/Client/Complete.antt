-- ===== src/Sync/Client/Complete.antt =====
-- A run of sync_session (src/sync/client.rs) where nothing stands in its way.
use mathlib.Core.List.{append-nil, append_assoc, map-append}
use ai_cli_session_db.Prelude.{
  ℕ, zero, suc, ◌<◌, List, [], ◌∷◌, ◌++◌, Option, some, true, false, map, length, is_empty, take,
  drop, ◌≡◌, refl, sym, ap, ◌∙◌, ◌⊎◌, inl, inr, arith, ltb, Bool-cases, if◌then◌else◌, length-drop,
  length-take, take-append-drop, drop_all, Option-cases,
}
use ai_cli_session_db.Prelude.Sorting.{left_of}
use ai_cli_session_db.Db.{Message}
use ai_cli_session_db.Db.Messages.{in_session}
use ai_cli_session_db.Sync.Batch.{SyncMessage}
use ai_cli_session_db.Sync.Collect.{sync_message, read_session_message_count}
use ai_cli_session_db.Sync.Cursors.{SyncDb, get_cursor, get_cursor-update_cursor_with_count}
use ai_cli_session_db.Sync.Client.Chunks.{seq, ordered}
use ai_cli_session_db.Sync.Client.Deliver.{
  IsClear, left, sent_messages, read_some, read_none, push_clear,
}
use ai_cli_session_db.Sync.Client.Loop.{sync_loop-suc}
use ai_cli_session_db.Sync.Client.Total.{length-left}
use ai_cli_session_db.Sync.Client.{
  Job, Run, Progress, Next, failed, returned, broke, again, sync_step, sync_loop, sync_session,
  start, finish, close_run, BatchStats, stats,
}

module _ (j : Job) (k : IsClear j) where
  -- The messages left above a cursor, as they are sent.
  abbrev due : ℕ → List SyncMessage
  due cursor = map (sync_message j.client.sync_raw) (left j k cursor)

  -- What an iteration has done where messages are left.
  Pushed : ℕ → Progress → Progress × Next → Type 0
  Pushed size p (q, next) =
      (sent_messages q.run.sent
        ≡ sent_messages p.run.sent
          ++ map (sync_message j.client.sync_raw) (take size (left j k p.current_cursor)))
      × (left j k q.current_cursor ≡ drop size (left j k p.current_cursor))
      × ((get_cursor j.session_id q.run.sync_db).0 ≡ q.current_cursor)
      × (next ≡ (
          if ltb
            (length (map (sync_message j.client.sync_raw) (take size (left j k p.current_cursor))))
            size
          then broke
          else again))

  step_some :
      (p : Progress) (n : ℕ) (x : Message) (rest : List Message)
      → j.client.batch_size ≡ suc n
      → left j k p.current_cursor ≡ x ∷ rest
      → Pushed j.client.batch_size p (sync_step j p)
  unfolding sync_step Pushed
  step_some p n x rest size shape =
      let (b, top, read, rows, behind) = read_some j k p.current_cursor n x rest size shape in
      let full : is_empty b.messages ≡ false = rw (rows, size, shape) refl in
      let (sent, cursor, kept, next) = push_clear j k b top (length b.messages) p in
      rw (read, sync_step)
        (rw full (
          sent ∙ ap (λ ms. sent_messages p.run.sent ++ ms) rows,
          ap (left j k) cursor ∙ behind,
          kept ∙ sym cursor,
          next
              ∙ ap
                  (λ (ms : List SyncMessage).
                    if ltb (length ms) j.client.batch_size then broke else again)
                  rows,
        ))

  step_none : (p : Progress) → left j k p.current_cursor ≡ [] → sync_step j p ≡ (p, returned)
  unfolding sync_step
  step_none p e = rw (read_none j k p.current_cursor e, sync_step) refl

  -- How the loop ends: everything that was left has been sent, and nothing is left.
  Delivered : Progress → Option (Progress × Next) → Type 0
  Delivered p o =
      (q : Progress) × (next : Next) × (o ≡ some (q, next))
      × ((next ≡ returned) ⊎ (next ≡ broke))
      × (sent_messages q.run.sent ≡ sent_messages p.run.sent ++ due p.current_cursor)
      × (left j k q.current_cursor ≡ [])
      × ((get_cursor j.session_id q.run.sync_db).0 ≡ q.current_cursor)

  -- What goes out now and what goes out later are what was due.
  due-split :
      (sent : List SyncMessage) (size cursor : ℕ) (after : ℕ)
      → left j k after ≡ drop size (left j k cursor)
      → (sent ++ map (sync_message j.client.sync_raw) (take size (left j k cursor))) ++ due after
        ≡ sent ++ due cursor
  due-split sent size cursor after e =
      let f = sync_message j.client.sync_raw in
      append_assoc sent (map f (take size (left j k cursor))) (due after)
      ∙ ap (λ ms. sent ++ ms)
          (ap (λ ms. map f (take size (left j k cursor)) ++ map f ms) e
            ∙ sym (map-append f (take size (left j k cursor)) (drop size (left j k cursor)))
            ∙ ap (map f) (take-append-drop size (left j k cursor)))

  length-map : (ms : List Message) → length (map (sync_message j.client.sync_raw) ms) ≡ length ms
  length-map [] = refl
  length-map (m ∷ ms) = omega (arith, length-map ms)

  -- A batch that is not full was the last.
  last_batch :
      (size : ℕ) (ms : List Message)
      → ltb (length (map (sync_message j.client.sync_raw) (take size ms))) size ≡ true
      → drop size ms ≡ []
  last_batch size ms h =
      drop_all size ms (ground (arith, length-map (take size ms), length-take size ms))

  step_loop :
      (fuel n : ℕ) (p : Progress) (x : Message) (rest : List Message)
      → j.client.batch_size ≡ suc n
      → left j k p.current_cursor ≡ x ∷ rest
      → length (left j k p.current_cursor) < suc fuel
      → (length (left j k (sync_step j p).0.current_cursor) < fuel
          → (get_cursor j.session_id (sync_step j p).0.run.sync_db).0
            ≡ (sync_step j p).0.current_cursor
          → Delivered (sync_step j p).0 (sync_loop fuel j (sync_step j p).0))
      → Delivered p (sync_loop (suc fuel) j p)
  unfolding Pushed Delivered
  step_loop fuel n p x rest size shape lt later =
      let (sent, behind, kept, next) = step_some p n x rest size shape in
      let was = left j k p.current_cursor in
      let q = (sync_step j p).0 in
      let now =
        sent_messages p.run.sent
        ++ map (sync_message j.client.sync_raw) (take j.client.batch_size was) in
      let split =
        due-split (sent_messages p.run.sent) j.client.batch_size p.current_cursor q.current_cursor
          behind in
      let full =
        ltb (length (map (sync_message j.client.sync_raw) (take j.client.batch_size was)))
          j.client.batch_size in
      elim (Bool-cases full) [
        | inl t ↦
            let nothing = behind ∙ last_batch j.client.batch_size was t in
            (
              q,
              broke,
              sync_loop-suc j fuel p broke (next ∙ ap (λ b. if b then broke else again) t),
              inr refl,
              sent
                  ∙ sym (append-nil now)
                  ∙ ap (λ ms. now ++ map (sync_message j.client.sync_raw) ms) (sym nothing)
                  ∙ split,
              nothing,
              kept,
            )
        | inr t ↦
            let less : length (left j k q.current_cursor) < fuel = omega (
              arith,
              lt,
              size,
              ap length behind,
              length-drop j.client.batch_size was,
              ap length shape,
            ) in
            let (end, how, same, ok, all, nothing, cursor) = later less kept in
            (
              end,
              how,
              sync_loop-suc j fuel p again (next ∙ ap (λ b. if b then broke else again) t) ∙ same,
              ok,
              all ∙ ap (λ ms. ms ++ due q.current_cursor) sent ∙ split,
              nothing,
              cursor,
            )
      ]

  sync_loop_complete :
      (fuel n : ℕ) (p : Progress)
      → j.client.batch_size ≡ suc n
      → length (left j k p.current_cursor) < fuel
      → (get_cursor j.session_id p.run.sync_db).0 ≡ p.current_cursor
      → Delivered p (sync_loop fuel j p)
  unfolding Delivered
  sync_loop_complete zero n p size lt kept = absurd (omega arith)
  sync_loop_complete (suc fuel) n p size lt kept =
      go (left j k p.current_cursor) refl (sync_loop_complete fuel n (sync_step j p).0 size)
    where
      go :
          (ms : List Message)
          → left j k p.current_cursor ≡ ms
          → (length (left j k (sync_step j p).0.current_cursor) < fuel
              → (get_cursor j.session_id (sync_step j p).0.run.sync_db).0
                ≡ (sync_step j p).0.current_cursor
              → Delivered (sync_step j p).0 (sync_loop fuel j (sync_step j p).0))
          → Delivered p (sync_loop (suc fuel) j p)
      go [] e later =
          let stops = step_none p e in
          (
            p,
            returned,
            sync_loop-suc j fuel p returned (ap (λ x. x.1) stops)
                ∙ ap (λ x. some (x.0, returned)) stops,
            inl refl,
            sym (append-nil _)
                ∙ ap (λ ms. sent_messages p.run.sent ++ map (sync_message j.client.sync_raw) ms)
                    (sym e),
            e,
            kept,
          )
      go (x ∷ rest) e later = step_loop fuel n p x rest size e lt later

  finish-cursor :
      (q : Progress) (next : Next)
      → ((next ≡ returned) ⊎ (next ≡ broke))
      → (get_cursor j.session_id q.run.sync_db).0 ≡ q.current_cursor
      → (stats : BatchStats) × ((finish j q next).1 ≡ some stats)
        × ((finish j q next).0.sent ≡ q.run.sent)
        × ((get_cursor j.session_id (finish j q next).0.sync_db).0 ≡ q.current_cursor)
  unfolding finish close_run
  finish-cursor q failed (inl e) kept = absurd (cc)
  finish-cursor q failed (inr e) kept = absurd (cc)
  finish-cursor q again (inl e) kept = absurd (cc)
  finish-cursor q again (inr e) kept = absurd (cc)
  finish-cursor q returned ok kept = (stats q, refl, refl, kept)
  finish-cursor q broke ok kept =
      elim (Option-cases (read_session_message_count j.session_id j.db)) [
        | inl e ↦ (stats q, refl, rw (e, close_run) refl, rw (e, close_run) kept)
        | inr (count, e) ↦ (
          stats q,
          refl,
          rw (e, close_run) refl,
          rw (e, close_run)
              (ap (λ x. x.0)
                (get_cursor-update_cursor_with_count j.session_id q.current_cursor count j.now
                  q.run.sync_db).0),
        )
      ]

  -- Where the session and its project are there and allowed, no words are filtered, a key is
  -- configured, the server answers every request, batches are not empty and the sequences of the
  -- session's messages are distinct, a run with more fuel than the session has messages ends without
  -- an error. Its requests carry exactly the session's messages above the cursor, each once and in
  -- the order of their sequences, and no message is left above the cursor that it stores.
  pub sync_session_complete :
      (fuel n : ℕ) (sync : SyncDb)
      → j.client.batch_size ≡ suc n
      → length (in_session j.session_id j.db.messages) < fuel
      → (run : Run) × (stats : BatchStats) × (sync_session fuel j
            (record { sync_db = sync; sent = [] })
          ≡ some (run, some stats))
        × (sent_messages run.sent
            ≡ map
                (sync_message j.client.sync_raw)
                (left_of seq (get_cursor j.session_id sync).0 (ordered j.session_id j.db)))
        × (left_of seq (get_cursor j.session_id run.sync_db).0 (ordered j.session_id j.db) ≡ [])
  unfolding sync_session Delivered
  sync_session_complete fuel n sync size lt =
      let begin : Run = record { sync_db = sync; sent = [] } in
      let p = start j begin in
      let (q, next, e, ok, all, nothing, kept) =
        sync_loop_complete fuel n p size (omega (arith, length-left j p.current_cursor)) refl in
      let (st, f, sent, cursor) = finish-cursor q next ok kept in
      (
        (finish j q next).0,
        st,
        rw (e, sync_session) (ap (λ o. some ((finish j q next).0, o)) f),
        ap sent_messages sent ∙ all,
        ap (λ c. left_of seq c (ordered j.session_id j.db)) cursor ∙ nothing,
      )
