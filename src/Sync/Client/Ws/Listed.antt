-- ===== src/Sync/Client/Ws/Listed.antt =====
-- What a run of sync_session_ws (src/sync/client.rs) leaves in sync.db.
use ai_cli_session_db.Prelude.{
  ℕ, zero, suc, ◌<◌, String, List, [], ◌∷◌, ◌++◌, Option, none, some, ◌≡◌, refl, sym, ap, ◌∙◌, inl,
  inr, length, is_empty, ltb, str_eq, str_eq_iff, Bool-cases, Option-cases, length-retain-le, arith,
  subst,
}
use ai_cli_session_db.Prelude.Sorting.{left_of, length-sort_by}
use ai_cli_session_db.Db.{Session, Message}
use ai_cli_session_db.Db.Messages.{in_session}
use ai_cli_session_db.Sync.Batch.{SyncBatch}
use ai_cli_session_db.Sync.Collect.{has_new_messages}
use ai_cli_session_db.Sync.Cursors.{
  SyncDb, find, update_cursor, move_cursor, synced_count, find-upsert,
}
use ai_cli_session_db.Sync.Client.Chunks.{seq, ordered}
use ai_cli_session_db.Sync.Client.Total.{collected_less}
use ai_cli_session_db.Sync.Client.{
  Next, failed, returned, broke, again, BatchStats, collect_and_filter_batch, batch_cursors,
}
use ai_cli_session_db.Sync.Client.Ws.{
  WsJob, WsProgress, SyncAck, auth_ok, auth_fail, push_fail, heartbeat_ok, push_ok, PushFrame,
  take_ack, ws_step, ws_loop, ws_start, ws_result, sync_session_ws,
}

-- Moving a cursor does not change whether a session has new messages.
has_new_messages-update :
    (id : String) (n now : ℕ) (sync : SyncDb) (s : Session)
    → has_new_messages (update_cursor id n now sync) s ≡ has_new_messages sync s
unfolding has_new_messages synced_count update_cursor
has_new_messages-update id n now sync s =
    let written = find-upsert id s.session_id (move_cursor n now) sync.sync_cursors in
    elim (Bool-cases (str_eq id s.session_id)) [
      | inr e ↦ rw (written, e) refl
      | inl e ↦
          let same = (str_eq_iff id s.session_id).0 e in
          let now_there : find s.session_id (update_cursor id n now sync).sync_cursors
              ≡ some (move_cursor n now (find s.session_id sync.sync_cursors)) =
            written ∙ rw e (ap (λ k. some (move_cursor n now (find k sync.sync_cursors))) same) in
          elim (Option-cases (find s.session_id sync.sync_cursors)) [
            | inl f ↦ rw (now_there, f) (ground arith)
            | inr (c, f) ↦ rw (now_there, f) refl
          ]
    ]

-- The part of the state that a listing reads is the same.
Same : SyncDb → SyncDb → Type 0
Same before after = (s : Session) → has_new_messages after s ≡ has_new_messages before s

take_ack-Same :
    (j : WsJob) (n len : ℕ) (p : WsProgress) (o : Option SyncAck)
    → Same p.sync_db (take_ack j n len p o).0.sync_db
unfolding Same take_ack
take_ack-Same j n len p none s = refl
take_ack-Same j n len p (some push_fail) s = refl
take_ack-Same j n len p (some (push_ok a k)) s =
    has_new_messages-update j.session_id n j.now p.sync_db s
take_ack-Same j n len p (some auth_ok) s = has_new_messages-update j.session_id n j.now p.sync_db s
take_ack-Same j n len p (some auth_fail) s =
    has_new_messages-update j.session_id n j.now p.sync_db s
take_ack-Same j n len p (some heartbeat_ok) s =
    has_new_messages-update j.session_id n j.now p.sync_db s

take_ack-again :
    (j : WsJob) (n len : ℕ) (p : WsProgress) (o : Option SyncAck)
    → (take_ack j n len p o).1 ≡ again
    → (take_ack j n len p o).0.current_cursor ≡ n
unfolding take_ack
take_ack-again j n len p none e = cc
take_ack-again j n len p (some push_fail) e = cc
take_ack-again j n len p (some (push_ok a k)) e = refl
take_ack-again j n len p (some auth_ok) e = refl
take_ack-again j n len p (some auth_fail) e = refl
take_ack-again j n len p (some heartbeat_ok) e = refl

abbrev left : WsJob → ℕ → List Message
left j cursor = left_of seq cursor (ordered j.session_id j.db)

-- A step keeps what a listing reads, and if it asks for another one, fewer messages are left.
StepKeeps : WsJob → WsProgress → WsProgress × Next → Type 0
StepKeeps j p (q, next) =
    Same p.sync_db q.sync_db
    × (next ≡ again → length (left j q.current_cursor) < length (left j p.current_cursor))

ws_step-StepKeeps : (j : WsJob) (p : WsProgress) → StepKeeps j p (ws_step j p)
unfolding StepKeeps ws_step Same
ws_step-StepKeeps j p =
    go (collect_and_filter_batch j.client j.db j.session_id j.project_path p.current_cursor) refl
  where
    go :
        (o : Option (Option (SyncBatch × ℕ × ℕ)))
        → collect_and_filter_batch j.client j.db j.session_id j.project_path p.current_cursor ≡ o
        → StepKeeps j p (ws_step j p)
    go none e = rw (e, ws_step) (λ s. refl, λ h. cc)
    go (some none) e = rw (e, ws_step) (λ s. refl, λ h. cc)
    go (some (some (b, n, len))) e =
        let less =
          collected_less j.client j.db j.session_id j.project_path p.current_cursor b n len e in
        let frame : PushFrame = record { batch = b; cursors = batch_cursors [] b.messages } in
        let out : WsProgress = record p { sent = p.sent ++ frame ∷ [] } in
        rw (e, ws_step)
          (elim (Bool-cases (is_empty b.messages)) [
            | inl t ↦ rw t (has_new_messages-update j.session_id n j.now p.sync_db, λ h. less)
            | inr t ↦ rw t (
              take_ack-Same j n len out (j.stream p.sent frame),
              λ h.
                  subst (λ c. length (left j c) < length (left j p.current_cursor))
                    (sym (take_ack-again j n len out (j.stream p.sent frame) h)) less,
            )
          ])

ws_loop-suc :
    (fuel : ℕ) (j : WsJob) (p : WsProgress) (n : Next)
    → (ws_step j p).1 ≡ n
    → ws_loop (suc fuel) j p ≡ elim n [
      | again ↦ ws_loop fuel j (ws_step j p).0
      | failed ↦ some ((ws_step j p).0, failed)
      | returned ↦ some ((ws_step j p).0, returned)
      | broke ↦ some ((ws_step j p).0, broke)
    ]
unfolding ws_loop
ws_loop-suc fuel j p n e = rw (e, ws_loop)

-- How the loop ends.
Ends : WsProgress → Option (WsProgress × Next) → Type 0
Ends p o = (q : WsProgress) × (next : Next) × (o ≡ some (q, next)) × Same p.sync_db q.sync_db

ws_loop-Ends :
    (fuel : ℕ) (j : WsJob) (p : WsProgress)
    → length (left j p.current_cursor) < fuel
    → Ends p (ws_loop fuel j p)
unfolding Ends Same StepKeeps
ws_loop-Ends zero j p lt = absurd (omega arith)
ws_loop-Ends (suc fuel) j p lt =
    go (ws_step j p).1 refl (ws_step-StepKeeps j p) (ws_loop-Ends fuel j (ws_step j p).0)
  where
    go :
        (n : Next)
        → (ws_step j p).1 ≡ n
        → StepKeeps j p (ws_step j p)
        → (length (left j (ws_step j p).0.current_cursor) < fuel
            → Ends (ws_step j p).0 (ws_loop fuel j (ws_step j p).0))
        → Ends p (ws_loop (suc fuel) j p)
    go again e k later =
        let (q, next, f, same) = later (omega (arith, k.1 e, lt)) in
        (q, next, ws_loop-suc fuel j p again e ∙ f, λ s. same s ∙ k.0 s)
    go failed e k later = ((ws_step j p).0, failed, ws_loop-suc fuel j p failed e, k.0)
    go returned e k later = ((ws_step j p).0, returned, ws_loop-suc fuel j p returned e, k.0)
    go broke e k later = ((ws_step j p).0, broke, ws_loop-suc fuel j p broke e, k.0)

-- With more fuel than the session has messages a run over the stream returns, whatever the stream
-- answers, and afterwards every session is listed as having new messages exactly if it was before:
-- a session that was sent completely is listed, and read, again on every full pass.
pub sync_session_ws-listed :
    (fuel : ℕ) (j : WsJob) (sync : SyncDb)
    → length (in_session j.session_id j.db.messages) < fuel
    → (end : WsProgress) × (result : Option BatchStats) × (sync_session_ws fuel j sync
        ≡ some (end, result))
      × ((s : Session) → has_new_messages end.sync_db s ≡ has_new_messages sync s)
unfolding sync_session_ws Ends Same
sync_session_ws-listed fuel j sync lt =
    let p = ws_start j sync in
    let few =
      length-retain-le (λ (m : Message). ltb p.current_cursor m.sequence)
        (ordered j.session_id j.db) in
    let all = length-sort_by seq (in_session j.session_id j.db.messages) in
    let (q, next, e, same) = ws_loop-Ends fuel j p (omega (arith, few, all, lt)) in
    (q, ws_result q next, rw (e, sync_session_ws) refl, same)
