-- ===== src/Sync/Client/Ws/Safe.antt =====
-- src/sync/client.rs: what the frames of a run over the WebSocket stream may carry.
use ai_cli_session_db.Prelude.{
  ℕ, zero, suc, List, [], ◌∷◌, ◌++◌, Option, none, some, is_empty, ◌≡◌, refl, sym, inl, inr, Has,
  Has-append, subst, arith, Bool-cases,
}
use ai_cli_session_db.Sync.Batch.{SyncBatch, SyncMessage}
use ai_cli_session_db.Sync.Cursors.{SyncDb}
use ai_cli_session_db.Sync.Client.{
  Job, Next, batch_cursors, failed, returned, broke, again, collect_and_filter_batch, BatchStats,
}
use ai_cli_session_db.Sync.Client.Leaving.{MayLeave, SafeMessage-MayLeave, filtered_safe}
use ai_cli_session_db.Sync.Client.Safe.{collected}
use ai_cli_session_db.Sync.Client.Ws.{
  WsJob, WsProgress, PushFrame, SyncAck, push_ok, push_fail, auth_ok, auth_fail, heartbeat_ok,
  take_ack, ws_step, ws_loop, ws_result, ws_start, sync_session_ws,
}

-- Every message of the frames has the property.
abbrev pub AllFrames : (SyncMessage → Type 0) → List PushFrame → Type 0
AllFrames P sent = (f : PushFrame) (m : SyncMessage) → Has f sent → Has m f.batch.messages → P m

-- The same session over HTTP.
abbrev pub http_job : WsJob → Job
http_job j = record {
  client = j.client;
  db = j.db;
  server = λ earlier request. none;
  fresh = "";
  now = j.now;
  session_id = j.session_id;
  project_path = j.project_path;
}

take_ack-sent :
    (j : WsJob) (n len : ℕ) (p : WsProgress) (answer : Option SyncAck)
    → (take_ack j n len p answer).0.sent ≡ p.sent
unfolding take_ack
take_ack-sent j n len p none = refl
take_ack-sent j n len p (some push_fail) = refl
take_ack-sent j n len p (some (push_ok a s)) = refl
take_ack-sent j n len p (some auth_ok) = refl
take_ack-sent j n len p (some auth_fail) = refl
take_ack-sent j n len p (some heartbeat_ok) = refl

module _ (P : SyncMessage → Type 0) (j : WsJob)
    (leave : (m : SyncMessage) → MayLeave j.client j.db m → P m) where
  ws_step-AllFrames : (p : WsProgress) → AllFrames P p.sent → AllFrames P (ws_step j p).0.sent
  unfolding ws_step
  ws_step-AllFrames p h =
      go (collect_and_filter_batch j.client j.db j.session_id j.project_path p.current_cursor) refl
    where
      go :
          (o : Option (Option (SyncBatch × ℕ × ℕ)))
          → collect_and_filter_batch j.client j.db j.session_id j.project_path p.current_cursor ≡ o
          → AllFrames P (ws_step j p).0.sent
      go none e = rw (e, ws_step) h
      go (some none) e = rw (e, ws_step) h
      go (some (some (b, n, len))) e =
          let c = collected j.client j.db j.session_id j.project_path p.current_cursor b n len e in
          let frame : PushFrame = record { batch = b; cursors = batch_cursors [] b.messages } in
          rw (e, ws_step)
            (elim (Bool-cases (is_empty b.messages)) [
              | inl t ↦ rw t h
              | inr t ↦ rw t (
                  subst (AllFrames P)
                    (sym (
                      take_ack-sent j n len (record p { sent = p.sent ++ frame ∷ [] })
                        (j.stream p.sent frame)))
                    λ f m k l. elim (Has-append f p.sent (frame ∷ []) k) [
                      | inl old ↦ h f m old l
                      | inr (inl new) ↦ leave m (
                          SafeMessage-MayLeave (http_job j) p.current_cursor m (
                            filtered_safe (http_job j) p.current_cursor c.0 m c.1 (
                              subst (λ (x : SyncBatch). Has m x.messages) c.2
                                (subst (λ (x : PushFrame). Has m x.batch.messages) new l))))
                      | inr (inr other) ↦ absurd other
                    ])
            ])

  ended :
      (p q : WsProgress) (n next : Next)
      → AllFrames P p.sent
      → ◌≡◌ {A = Option (WsProgress × Next)} (some (p, n)) (some (q, next))
      → AllFrames P q.sent
  ended p q n next h e =
      let same : p ≡ q = cc (e) in subst (λ (x : WsProgress). AllFrames P x.sent) same h

  ws_loop-AllFrames :
      (fuel : ℕ) (p q : WsProgress) (next : Next)
      → AllFrames P p.sent
      → ws_loop fuel j p ≡ some (q, next)
      → AllFrames P q.sent
  unfolding ws_loop
  ws_loop-AllFrames zero p q next h e = cc
  ws_loop-AllFrames (suc fuel) p q next h e =
      go (ws_step j p).1 refl
        (ws_loop-AllFrames fuel (ws_step j p).0 q next (ws_step-AllFrames p h))
    where
      go :
          (n : Next)
          → (ws_step j p).1 ≡ n
          → (ws_loop fuel j (ws_step j p).0 ≡ some (q, next) → AllFrames P q.sent)
          → AllFrames P q.sent
      go again f later = later (rw (f, ws_loop) at e)
      go failed f later =
          ended (ws_step j p).0 q failed next (ws_step-AllFrames p h) (rw (f, ws_loop) at e)
      go returned f later =
          ended (ws_step j p).0 q returned next (ws_step-AllFrames p h) (rw (f, ws_loop) at e)
      go broke f later =
          ended (ws_step j p).0 q broke next (ws_step-AllFrames p h) (rw (f, ws_loop) at e)

  pub sync_session_ws-AllFrames :
      (fuel : ℕ) (sync : SyncDb) (end : WsProgress) (result : Option BatchStats)
      → sync_session_ws fuel j sync ≡ some (end, result)
      → AllFrames P end.sent
  unfolding sync_session_ws
  sync_session_ws-AllFrames fuel sync end result e = go (ws_loop fuel j (ws_start j sync)) refl
    where
      go :
          (o : Option (WsProgress × Next))
          → ws_loop fuel j (ws_start j sync) ≡ o
          → AllFrames P end.sent
      go none f = absurd (ground arith)
      go (some (p, next)) f =
          let e' : ◌≡◌ {A = Option (WsProgress × Option BatchStats)} (some (p, ws_result p next))
              (some (end, result)) =
            rw (f, sync_session_ws) at e in
          let same : p ≡ end = cc (e') in
          subst (λ (x : WsProgress). AllFrames P x.sent) same
            (ws_loop-AllFrames fuel (ws_start j sync) p next (λ f m nothing. absurd nothing) f)
