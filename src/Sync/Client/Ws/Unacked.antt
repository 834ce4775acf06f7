-- ===== src/Sync/Client/Ws/Unacked.antt =====
-- src/sync/client.rs: a run over the WebSocket stream whose pushes are never acknowledged.
use ai_cli_session_db.Prelude.{
  ℕ, zero, suc, ◌<◌, ◌≤◌, List, [], ◌∷◌, ◌++◌, Option, none, some, Bool, true, false, is_empty, max,
  map, length, ltb, ◌≡◌, ◌⊎◌, refl, sym, ap, ◌∙◌, inl, inr, Has, Has-append, subst, arith,
  Bool-cases, Option-cases, if◌then◌else◌, str_eq_refl,
}
use ai_cli_session_db.Db.Messages.{max_of, in_session}
use ai_cli_session_db.Sync.Batch.{SyncBatch, SyncMessage}
use ai_cli_session_db.Sync.Cursors.{SyncDb, get_cursor, get_cursor-update_cursor}
use ai_cli_session_db.Sync.Filter.Projects.{filter_projects-messages}
use ai_cli_session_db.Sync.Client.{
  Next, batch_cursors, failed, returned, broke, again, collect_and_filter_batch, max_sequence,
  BatchStats,
}
use ai_cli_session_db.Sync.Client.Leaving.{leaving_from}
use ai_cli_session_db.Sync.Client.Safe.{collected, read_ahead}
use ai_cli_session_db.Sync.Client.Ws.{
  WsJob, WsProgress, PushFrame, SyncAck, push_ok, push_fail, auth_ok, auth_fail, heartbeat_ok,
  take_ack, ws_step, ws_loop, ws_result, ws_start, sync_session_ws, moved,
}
use ai_cli_session_db.Sync.Client.Ws.Listed.{sync_session_ws-listed}
use ai_cli_session_db.Sync.Client.Ws.Safe.{AllFrames, http_job}

-- An answer of the stream that is neither of the two answers to a push.
abbrev pub IsUnrelated : Option SyncAck → Type 0
IsUnrelated none = ⊥
IsUnrelated (some push_fail) = ⊥
IsUnrelated (some (push_ok accepted skipped)) = ⊥
IsUnrelated (some auth_ok) = Unit
IsUnrelated (some auth_fail) = Unit
IsUnrelated (some heartbeat_ok) = Unit

take_ack-unrelated :
    (j : WsJob) (n len : ℕ) (p : WsProgress) (o : Option SyncAck)
    → IsUnrelated o
    → take_ack j n len p o ≡ (moved j n p, if ltb len j.client.batch_size then broke else again)
unfolding take_ack
take_ack-unrelated j n len p none h = absurd h
take_ack-unrelated j n len p (some push_fail) h = absurd h
take_ack-unrelated j n len p (some (push_ok a s)) h = absurd h
take_ack-unrelated j n len p (some auth_ok) h = refl
take_ack-unrelated j n len p (some auth_fail) h = refl
take_ack-unrelated j n len p (some heartbeat_ok) h = refl

-- No message of a read has a sequence above the highest.
max_of-le :
    (m : SyncMessage) (ms : List SyncMessage)
    → Has m ms
    → (n : ℕ) × (max_of (map (λ (r : SyncMessage). r.sequence) ms) ≡ some n) × (m.sequence ≤ n)
unfolding max_of
max_of-le m [] h = absurd h
max_of-le m (x ∷ xs) h = elim (Option-cases (max_of (map (λ (r : SyncMessage). r.sequence) xs))) [
  | inl e ↦ elim h [
    | inl q ↦ (x.sequence, rw (e, max_of) refl, omega (arith, ap (λ r. r.sequence) q))
    | inr k ↦ let (n, f, le) = max_of-le m xs k in absurd (cc (e, f))
  ]
  | inr (t, e) ↦ elim h [
    | inl q ↦ (max x.sequence t, rw (e, max_of) refl, omega (arith, ap (λ r. r.sequence) q))
    | inr k ↦
        let (n, f, le) = max_of-le m xs k in
        (max x.sequence t, rw (e, max_of) refl, ground (arith, e, f, le))
  ]
]

max_sequence-le :
    (after : ℕ) (m : SyncMessage) (ms : List SyncMessage)
    → Has m ms
    → m.sequence ≤ max_sequence after ms
unfolding max_sequence
max_sequence-le after m ms h = let (n, e, le) = max_of-le m ms h in rw (e, max_sequence) le

-- Nothing is counted, and every message that went out is at or below the stored cursor.
record Unacked (j : WsJob) (p : WsProgress) : Type 0 where
  stored : (get_cursor j.session_id p.sync_db).0 ≡ p.current_cursor
  pushed : p.total_pushed ≡ 0
  skipped : p.total_skipped ≡ 0
  passed : AllFrames (λ m. m.sequence ≤ p.current_cursor) p.sent

Unacked-moved :
    (j : WsJob) (p : WsProgress) (n : ℕ) (sent : List PushFrame)
    → Unacked j p
    → AllFrames (λ m. m.sequence ≤ n) sent
    → Unacked j (moved j n (record p { sent = sent }))
Unacked-moved j p n sent u passed = record {
  stored =
      ap (λ x. x.0) (get_cursor-update_cursor j.session_id j.session_id n j.now p.sync_db)
      ∙ rw (str_eq_refl j.session_id) refl;
  pushed = u.pushed;
  skipped = u.skipped;
  passed = passed;
}

module _ (j : WsJob)
    (unrelated : (earlier : List PushFrame) (frame : PushFrame)
      → IsUnrelated (j.stream earlier frame)) where
  -- A step that fails has failed to read.
  abbrev NoRead : WsProgress → Next → Type 0
  NoRead p failed =
      collect_and_filter_batch j.client j.db j.session_id j.project_path p.current_cursor ≡ none
  NoRead p returned = Unit
  NoRead p broke = Unit
  NoRead p again = Unit

  abbrev Kept : WsProgress × Next → Type 0
  Kept (p, n) = Unacked j p × NoRead p n

  go_on : (p : WsProgress) (b : Bool) → NoRead p (if b then broke else again)
  go_on p true = tt
  go_on p false = tt

  ws_step-Kept : (p : WsProgress) → Unacked j p → Kept (ws_step j p)
  unfolding ws_step
  ws_step-Kept p u =
      go (collect_and_filter_batch j.client j.db j.session_id j.project_path p.current_cursor) refl
    where
      go :
          (o : Option (Option (SyncBatch × ℕ × ℕ)))
          → collect_and_filter_batch j.client j.db j.session_id j.project_path p.current_cursor ≡ o
          → Kept (ws_step j p)
      go none e = rw (e, ws_step) (u, e)
      go (some none) e = rw (e, ws_step) (u, tt)
      go (some (some (b, n, len))) e =
          let (raw, read, same, top, _, _) =
            collected j.client j.db j.session_id j.project_path p.current_cursor b n len e in
          let ahead : p.current_cursor ≤ n =
            rw top (read_ahead (http_job j) p.current_cursor raw read) in
          let old : AllFrames (λ m. m.sequence ≤ n) p.sent =
            λ f m k l. omega (arith, u.passed f m k l, ahead) in
          let frame : PushFrame = record { batch = b; cursors = batch_cursors [] b.messages } in
          let new : AllFrames (λ m. m.sequence ≤ n) (p.sent ++ frame ∷ []) = λ f m k l.
            elim (Has-append f p.sent (frame ∷ []) k) [
              | inl k' ↦ old f m k' l
              | inr (inl q) ↦
                  let (r, from, seq, _) = leaving_from j.client raw m (
                    subst (λ (x : SyncBatch). Has m x.messages) same
                      (subst (λ (x : PushFrame). Has m x.batch.messages) q l)) in
                  let there = ((filter_projects-messages j.client.project_filter raw r).0 from).0 in
                  omega (arith, max_sequence-le p.current_cursor r raw.messages there, seq, top)
              | inr (inr other) ↦ absurd other
            ] in
          rw (e, ws_step)
            (elim (Bool-cases (is_empty b.messages)) [
              | inl t ↦ rw t (Unacked-moved j p n p.sent u old, tt)
              | inr t ↦ rw t (
                  subst Kept
                    (sym (
                      take_ack-unrelated j n len (record p { sent = p.sent ++ frame ∷ [] })
                        (j.stream p.sent frame) (unrelated p.sent frame)))
                    (
                      Unacked-moved j p n (p.sent ++ frame ∷ []) u new,
                      go_on (moved j n (record p { sent = p.sent ++ frame ∷ [] }))
                          (ltb len j.client.batch_size),
                    ))
            ])

  -- The loop does not end with a wish for another iteration.
  abbrev Ended : WsProgress × Next → Type 0
  Ended (p, failed) = Unacked j p × NoRead p failed
  Ended (p, returned) = Unacked j p
  Ended (p, broke) = Unacked j p
  Ended (p, again) = ⊥

  ended :
      (p q : WsProgress) (n next : Next)
      → Ended (p, n)
      → ◌≡◌ {A = Option (WsProgress × Next)} (some (p, n)) (some (q, next))
      → Ended (q, next)
  ended p q n next k e =
      let same : ◌≡◌ {A = WsProgress × Next} (p, n) (q, next) = cc (e) in subst Ended same k

  ws_loop-Ended :
      (fuel : ℕ) (p q : WsProgress) (next : Next)
      → Unacked j p
      → ws_loop fuel j p ≡ some (q, next)
      → Ended (q, next)
  unfolding ws_loop
  ws_loop-Ended zero p q next u e = cc
  ws_loop-Ended (suc fuel) p q next u e =
      let k = ws_step-Kept p u in
      go (ws_step j p).1 refl k (ws_loop-Ended fuel (ws_step j p).0 q next k.0)
    where
      go :
          (n : Next)
          → (ws_step j p).1 ≡ n
          → Kept (ws_step j p)
          → (ws_loop fuel j (ws_step j p).0 ≡ some (q, next) → Ended (q, next))
          → Ended (q, next)
      go again f k later = later (rw (f, ws_loop) at e)
      go failed f k later =
          ended (ws_step j p).0 q failed next (k.0, subst (NoRead (ws_step j p).0) f k.1)
            (rw (f, ws_loop) at e)
      go returned f k later = ended (ws_step j p).0 q returned next k.0 (rw (f, ws_loop) at e)
      go broke f k later = ended (ws_step j p).0 q broke next k.0 (rw (f, ws_loop) at e)

  abbrev no_push : BatchStats
  no_push = record { messages_pushed = 0; messages_skipped = 0 }

  -- What a run is left with.
  abbrev Passed : WsProgress × Option BatchStats → Type 0
  Passed (end, result) =
      ((result ≡ some no_push)
        ⊎ ((result ≡ none)
            × (collect_and_filter_batch j.client j.db j.session_id j.project_path
                  (get_cursor j.session_id end.sync_db).0
                ≡ none)))
      × AllFrames (λ m. m.sequence ≤ (get_cursor j.session_id end.sync_db).0) end.sent

  Passed-ws_result : (q : WsProgress) (next : Next) → Ended (q, next) → Passed (q, ws_result q next)
  Passed-ws_result q failed (u, no_read) = (inr (refl, rw u.stored no_read), rw u.stored u.passed)
  Passed-ws_result q returned u = (inl (rw (u.pushed, u.skipped) refl), rw u.stored u.passed)
  Passed-ws_result q broke u = (inl (rw (u.pushed, u.skipped) refl), rw u.stored u.passed)
  Passed-ws_result q again u = absurd u

  -- Where the stream answers every push with something that is no answer to a push, AuthOk, AuthFail
  -- or HeartbeatOk in any order, a run with more fuel than the session has messages returns. These
  -- answers are no error: the run counts nothing as pushed or skipped and ends well, unless a read of
  -- the main database fails. In either case every message of every frame that went out is at or below
  -- the cursor that the run leaves in sync.db, so that none of them is sent again.
  pub sync_session_ws-unacked :
      (fuel : ℕ) (sync : SyncDb)
      → length (in_session j.session_id j.db.messages) < fuel
      → (end : WsProgress) × (result : Option BatchStats) × (sync_session_ws fuel j sync
          ≡ some (end, result))
        × ((result ≡ some (record { messages_pushed = 0; messages_skipped = 0 }))
            ⊎ ((result ≡ none)
                × (collect_and_filter_batch j.client j.db j.session_id j.project_path
                      (get_cursor j.session_id end.sync_db).0
                    ≡ none)))
        × AllFrames (λ m. m.sequence ≤ (get_cursor j.session_id end.sync_db).0) end.sent
  unfolding sync_session_ws
  sync_session_ws-unacked fuel sync lt =
      let (end, result, e, _) = sync_session_ws-listed fuel j sync lt in
      let left = go (ws_loop fuel j (ws_start j sync)) refl end result e in
      (end, result, e, left.0, left.1)
    where
      first : Unacked j (ws_start j sync)
      first = record {
        stored = refl;
        pushed = refl;
        skipped = refl;
        passed = λ f m nothing l. absurd nothing;
      }

      go :
          (o : Option (WsProgress × Next))
          → ws_loop fuel j (ws_start j sync) ≡ o
          → (end : WsProgress) (result : Option BatchStats)
          → sync_session_ws fuel j sync ≡ some (end, result)
          → Passed (end, result)
      go none f end result e = absurd (ground arith)
      go (some (q, next)) f end result e =
          let e' : ◌≡◌ {A = Option (WsProgress × Option BatchStats)} (some (q, ws_result q next))
              (some (end, result)) =
            rw (f, sync_session_ws) at e in
          let same : ◌≡◌ {A = WsProgress × Option BatchStats} (q, ws_result q next) (end, result) =
            cc (e') in
          subst Passed same
            (Passed-ws_result q next (ws_loop-Ended fuel (ws_start j sync) q next first f))
