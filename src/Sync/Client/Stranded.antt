-- ===== src/Sync/Client/Stranded.antt =====
-- How a filter that drops a part of a full batch ends a run (sync_session, src/sync/client.rs).

use ai_cli_session_db.Prelude.{
  ℕ, zero, suc, ◌<◌, List, [], ◌∷◌, some, Bool, true, false, is_empty, ◌≡◌, String, refl, sym, ap,
  ◌∙◌, inl, inr, arith, lt→ltb, str_eq, str_eq_iff, Bool-cases, length, map, take, drop,
  length-take, length-drop, length-map,
}
use ai_cli_session_db.Prelude.Sorting.{left_of, Increasing}
use ai_cli_session_db.Db.{SessionDb, Session, Message}
use ai_cli_session_db.Sync.Batch.{SyncBatch, SyncMessage, SyncPushResponse}
use ai_cli_session_db.Sync.Collect.{
  has_new_messages, first, session_row, read_session_message_count, collect_batch, sync_message,
}
use ai_cli_session_db.Sync.Cursors.{SyncDb, get_cursor, get_cursor-update_cursor_with_count}
use ai_cli_session_db.Sync.Client.{
  Job, Run, Progress, BatchStats, collect_and_filter_batch, sync_session, start, broke, sync_step,
  push_step, finish, close_run, push_batch, stats, filter_batch, max_sequence,
}
use ai_cli_session_db.Sync.Client.Loop.{sync_loop-suc}
use ai_cli_session_db.Sync.Client.Leaving.{collect_batch-parts}
use ai_cli_session_db.Sync.Client.Chunks.{seq, ordered, read_messages_lem, left_of-max_sequence}

first-passes :
    (p : Session → Bool) (ss : List Session) (s : Session) → first p ss ≡ some s → p s ≡ true
first-passes p [] s e = cc
first-passes p (x ∷ xs) s e = elim (Bool-cases (p x)) [
  | inl t ↦ ground (arith, t, e)
  | inr t ↦ first-passes p xs s (ground (arith, t, e))
]

session_row-id :
    (id : String) (db : SessionDb) (s : Session) → session_row id db ≡ some s → s.session_id ≡ id
unfolding session_row
session_row-id id db s e =
    (str_eq_iff s.session_id id).0 (first-passes (λ t. str_eq t.session_id id) db.sessions s e)

-- The iteration that pushes such a batch is the last.
step_short :
    (j : Job) (p : Progress) (b : SyncBatch) (top len : ℕ) (answer : SyncPushResponse)
    → collect_and_filter_batch j.client j.db j.session_id j.project_path p.current_cursor
      ≡ some (some (b, top, len))
    → is_empty b.messages ≡ false
    → len < j.client.batch_size
    → (push_batch j.client j.fresh j.server b p.run).1 ≡ some answer
    → ((sync_step j p).1 ≡ broke)
      × ((sync_step j p).0.current_cursor ≡ top)
      × ((sync_step j p).0.run.sent ≡ (push_batch j.client j.fresh j.server b p.run).0.sent)
unfolding sync_step push_step
step_short j p b top len answer read some_left short answered =
    rw (read, sync_step)
      (rw some_left
        (rw (answered, push_step) (rw (lt→ltb len j.client.batch_size short) (refl, refl, refl))))

-- A closed run counts the messages of the session row, so that none is new.
close_run-counted :
    (j : Job) (q : Progress) (s : Session)
    → session_row j.session_id j.db ≡ some s
    → ((close_run j q).sent ≡ q.run.sent)
      × ((get_cursor j.session_id (close_run j q).sync_db).0 ≡ q.current_cursor)
      × (has_new_messages (close_run j q).sync_db s ≡ false)
unfolding close_run read_session_message_count has_new_messages
close_run-counted j q s row =
    let written =
      get_cursor-update_cursor_with_count j.session_id q.current_cursor s.message_count j.now
        q.run.sync_db in
    let id = session_row-id j.session_id j.db s row in
    rw (row, close_run, read_session_message_count)
      (refl, ap (λ x. x.0) written.0, rw (id, written.1, has_new_messages) (ground arith))

-- What is left above a cursor.
abbrev pub waiting : Job → ℕ → List Message
waiting j cursor = left_of seq cursor (ordered j.session_id j.db)

-- A full read of which a part passes the filters counts as short.
full_read :
    (j : Job) (after : ℕ) (b : SyncBatch)
    → collect_batch j.client.sync_raw j.client.batch_size j.session_id j.project_path after j.db
      ≡ some b
    → Increasing seq (ordered j.session_id j.db)
    → j.client.batch_size < length (waiting j after)
    → length (filter_batch j.client b).messages < length b.messages
    → (collect_and_filter_batch j.client j.db j.session_id j.project_path after
        ≡ some (
            some (
              filter_batch j.client b,
              max_sequence after b.messages,
              length (filter_batch j.client b).messages,
            )))
      × (length b.messages ≡ j.client.batch_size)
      × (waiting j (max_sequence after b.messages) ≡ drop j.client.batch_size (waiting j after))
unfolding collect_and_filter_batch
full_read j after b read distinct more dropped =
    let raw = j.client.sync_raw in
    let size = j.client.batch_size in
    let parts = collect_batch-parts raw size j.session_id j.project_path after j.db b read in
    let rows = parts.0 ∙ read_messages_lem raw size j.session_id after j.db in
    let full : length b.messages ≡ size =
      ap (λ ms. length ms) rows
      ∙ length-map (sync_message raw) (take size (waiting j after))
      ∙ omega (arith, length-take size (waiting j after), more) in
    let some_read : is_empty b.messages ≡ false = nonempty b.messages (omega (arith, dropped)) in
    (
      rw (read, collect_and_filter_batch) (rw some_read refl),
      full,
      from size refl (waiting j after) refl rows (omega (arith, full, dropped)) more,
    )
  where
    nonempty : (ms : List SyncMessage) → 0 < length ms → is_empty ms ≡ false
    nonempty [] h = absurd (omega arith)
    nonempty (m ∷ ms) h = refl

    from :
        (n : ℕ)
        → j.client.batch_size ≡ n
        → (xs : List Message) → waiting j after ≡ xs
        → b.messages ≡ map (sync_message j.client.sync_raw) (take n xs)
        → 0 < n
        → n < length xs
        → waiting j (max_sequence after b.messages) ≡ drop n xs
    from zero e xs f rows pos lt = absurd (omega arith)
    from (suc n) e [] f rows pos lt = absurd (omega arith)
    from (suc n) e (x ∷ xs) f rows pos lt =
        let all = ordered j.session_id j.db in
        ap (λ ms. waiting j (max_sequence after ms)) rows
        ∙ ap
            (λ l.
              waiting j
                (max_sequence after (map (sync_message j.client.sync_raw) (take (suc n) l))))
            (sym f)
        ∙ left_of-max_sequence j.client.sync_raw n after all x xs f distinct
        ∙ ap (drop (suc n)) f

-- Where more messages are waiting above the cursor than fit into a batch, so that the read is full,
-- the filters drop a part of it but not all, and the server answers, the run ends without an error
-- after this one request. It stores the highest sequence that was read, and exactly the messages
-- behind the read are left above it, at least one; nevertheless the session counts as having no new
-- messages.
pub sync_session-stranded :
    (fuel : ℕ) (j : Job) (sync : SyncDb) (s : Session) (b : SyncBatch) (answer : SyncPushResponse)
    → let begin : Run = record { sync_db = sync; sent = [] } in
      let cursor = (get_cursor j.session_id sync).0 in
      session_row j.session_id j.db ≡ some s
      → collect_batch j.client.sync_raw j.client.batch_size j.session_id j.project_path cursor j.db
        ≡ some b
      → Increasing seq (ordered j.session_id j.db)
      → j.client.batch_size < length (waiting j cursor)
      → is_empty (filter_batch j.client b).messages ≡ false
      → length (filter_batch j.client b).messages < length b.messages
      → (push_batch j.client j.fresh j.server (filter_batch j.client b) begin).1 ≡ some answer
      → (run : Run) × (stats : BatchStats) × (sync_session (suc fuel) j begin
          ≡ some (run, some stats))
        × (run.sent ≡ (push_batch j.client j.fresh j.server (filter_batch j.client b) begin).0.sent)
        × (waiting j (get_cursor j.session_id run.sync_db).0
            ≡ drop j.client.batch_size (waiting j cursor))
        × (0 < length (waiting j (get_cursor j.session_id run.sync_db).0))
        × (has_new_messages run.sync_db s ≡ false)
unfolding sync_session finish
sync_session-stranded fuel j sync s b answer row read distinct more some_left dropped answered =
    let begin : Run = record { sync_db = sync; sent = [] } in
    let p = start j begin in
    let after = (get_cursor j.session_id sync).0 in
    let (got, full, behind) = full_read j after b read distinct more dropped in
    let (ends, cursor, sent) =
      step_short j p (filter_batch j.client b) (max_sequence after b.messages)
        (length (filter_batch j.client b).messages) answer got some_left
        (omega (arith, full, dropped)) answered in
    let q = (sync_step j p).0 in
    let (all, kept, none_new) = close_run-counted j q s row in
    let rest = ap (waiting j) (kept ∙ cursor) ∙ behind in
    (
      close_run j q,
      stats q,
      rw (sync_loop-suc j fuel p broke ends, sync_session) refl,
      all ∙ sent,
      rest,
      omega (
        arith,
        ap (λ ms. length ms) rest,
        length-drop j.client.batch_size (waiting j after),
        more,
      ),
      none_new,
    )
