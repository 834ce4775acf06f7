-- ===== src/Agent/Handler/Refines.antt =====
-- src/agent/handler.rs against what it promises its clients.
use ai_cli_session_db.Prelude.{
  ℕ, suc, String, Text, List, [], ◌∷◌, Option, none, some, Bool, true, false, not, ◌&&◌, ◌≡◌, refl,
  sym, ap, ◌∙◌, inl, inr, str_eq, if◌then◌else◌, Option-cases, Bool-cases, arith, subst,
}
use ai_cli_session_db.Db.{SessionDb, ApprovalStatus}
use ai_cli_session_db.Db.Index.{mark_messages_indexed}
use ai_cli_session_db.Db.Sessions.{session_exists, coalesce}
use ai_cli_session_db.Db.Approvals.{update_approval_status_by_tool_call_id}
use ai_cli_session_db.Db.Talks.{
  find_talk, upsert_talk_summary, upsert_talk_summary-find, upsert_talk_summary-frame, written_talk,
}
use ai_cli_session_db.Sync.Worker.{pause, resume}
use ai_cli_session_db.Agent.Handler.Promise.{
  Promise, put_talk, promise_talk, promise, promise_all, IsDirect, AreDirect, summaries, Meets,
}
use ai_cli_session_db.Agent.Handler.{
  Files, Request, Response, Handler, handle, handle_all, handshake, notify_file_change,
  write_index_result, write_compact_result, write_approve_result, heartbeat, query, hook_event,
  sync_pause, sync_resume, ok, error, status_is, count_is, sync_is, status, connection_count_of,
  sync_status, handle_write_index_result, handle_write_compact_result, handle_write_approve_result,
  handle_query,
}

-- Updates of messages leave what a promise is about.
same_db :
    (h : Handler) (p : Promise) (db : SessionDb)
    → db.foreign_keys ≡ h.db.foreign_keys
    → db.sessions ≡ h.db.sessions
    → db.talks ≡ h.db.talks
    → Meets h p
    → Meets (record h { db = db }) p
unfolding session_exists
same_db h p db e f g m = record {
  paused = m.paused;
  running = m.running;
  connections = m.connections;
  enforced = e ∙ m.enforced;
  has_session = λ id. rw f (m.has_session id);
  talk = λ a b. rw g (m.talk a b);
}

indexed_same :
    (ids : List ℕ) (db : SessionDb)
    → ((mark_messages_indexed ids db).0.foreign_keys ≡ db.foreign_keys)
      × ((mark_messages_indexed ids db).0.sessions ≡ db.sessions)
      × ((mark_messages_indexed ids db).0.talks ≡ db.talks)
unfolding mark_messages_indexed
indexed_same [] db = (refl, refl, refl)
indexed_same (i ∷ ids) db = (refl, refl, refl)

approved_same :
    (call : String) (verdict : ApprovalStatus) (at : ℕ) (db : SessionDb)
    → ((update_approval_status_by_tool_call_id call verdict at db).0.foreign_keys ≡ db.foreign_keys)
      × ((update_approval_status_by_tool_call_id call verdict at db).0.sessions ≡ db.sessions)
      × ((update_approval_status_by_tool_call_id call verdict at db).0.talks ≡ db.talks)
unfolding update_approval_status_by_tool_call_id
approved_same call verdict at db = (refl, refl, refl)

-- A step of the agent and a step of the promise.
abbrev pub Matches : Handler × Response → Promise × Response → Type 0
Matches r q = Meets r.0 q.0 × (r.1 ≡ q.1)

promise_old :
    (a b : String) (l2 old2 : Text) (l3 old3 : Option Text) (p : Promise)
    → p.talk a b ≡ some (old2, old3)
    → promise_talk a b l2 l3 p ≡ (put_talk a b l2 (coalesce l3 old3) p, ok)
promise_old a b l2 old2 l3 old3 p e = rw (e, promise_talk) refl

promise_new :
    (a b : String) (l2 : Text) (l3 : Option Text) (p : Promise)
    → p.talk a b ≡ none
    → (p.enforced && not (p.has_session a)) ≡ false
    → promise_talk a b l2 l3 p ≡ (put_talk a b l2 l3 p, ok)
promise_new a b l2 l3 p e g = rw (e, g, promise_talk) refl

promise_refused :
    (a b : String) (l2 : Text) (l3 : Option Text) (p : Promise)
    → p.talk a b ≡ none
    → (p.enforced && not (p.has_session a)) ≡ true
    → promise_talk a b l2 l3 p ≡ (p, error 500 "Failed to write compact result")
promise_refused a b l2 l3 p e g = rw (e, g, promise_talk) refl

module _ (a b : String) (l2 : Text) (l3 : Option Text) (now : ℕ) (h : Handler) (p : Promise)
    (m : Meets h p) where
  guarded :
      (h.db.foreign_keys && not (session_exists a h.db)) ≡ (p.enforced && not (p.has_session a))
  guarded =
      ap (λ x. x && not (session_exists a h.db)) m.enforced
      ∙ ap (λ x. p.enforced && not x) (m.has_session a)

  -- The database after a summary is written, as a promise of the row that the talk then has.
  written_Meets :
      (done : SessionDb) (w : Text × Option Text)
      → upsert_talk_summary a b l2 l3 now h.db ≡ some done
      → summaries
          (some (written_talk a b l2 l3 now (suc h.db.last_talk_id) (find_talk a b h.db.talks)))
        ≡ some w
      → Meets (record h { db = done }) (put_talk a b w.0 w.1 p)
  unfolding session_exists
  written_Meets done w e k =
      let frame = upsert_talk_summary-frame a b l2 l3 now h.db done e in
      record {
        paused = m.paused;
        running = m.running;
        connections = m.connections;
        enforced = frame.0 ∙ m.enforced;
        has_session = λ id. rw frame.1 (m.has_session id);
        talk = λ c d. ap summaries (row c d) ∙ choose (str_eq a c && str_eq b d) c d;
      }
    where
      row :
          (c d : String)
          → find_talk c d done.talks ≡ (
              if str_eq a c && str_eq b d
              then some
                  (written_talk a b l2 l3 now (suc h.db.last_talk_id) (find_talk a b h.db.talks))
              else find_talk c d h.db.talks)
      row c d = elim (upsert_talk_summary-find a b c d l2 l3 now h.db) [
        | inl (fails, f, g, s) ↦ absurd (ground (arith, fails, e))
        | inr (other, works, f) ↦
            let same : some other ≡ some done = sym works ∙ e in
            ap
              (λ (o : Option SessionDb).
                find_talk c d (elim o [ none ↦ h.db.talks | some x ↦ x.talks ]))
              (sym same)
            ∙ f
      ]

      choose :
          (t : Bool) (c d : String)
          → summaries (
              if t
              then some
                  (written_talk a b l2 l3 now (suc h.db.last_talk_id) (find_talk a b h.db.talks))
              else find_talk c d h.db.talks)
            ≡ (if t then some w else p.talk c d)
      choose true c d = k
      choose false c d = m.talk c d

  unguarded :
      (done : SessionDb)
      → upsert_talk_summary a b l2 l3 now h.db ≡ some done
      → find_talk a b h.db.talks ≡ none
      → (h.db.foreign_keys && not (session_exists a h.db)) ≡ false
  unfolding upsert_talk_summary
  unguarded done u f = elim (Bool-cases (h.db.foreign_keys && not (session_exists a h.db))) [
    | inl e ↦ absurd (ground (arith, rw (f, e, upsert_talk_summary) at u))
    | inr e ↦ e
  ]

  compact_Matches : Matches (handle_write_compact_result a b l2 l3 now h) (promise_talk a b l2 l3 p)
  unfolding handle_write_compact_result
  compact_Matches = elim (Option-cases (upsert_talk_summary a b l2 l3 now h.db)) [
    | inl u ↦ elim (upsert_talk_summary-find a b a b l2 l3 now h.db) [
      | inl (fails, f, g, s) ↦
          let open_guard : (h.db.foreign_keys && not (session_exists a h.db)) ≡ true =
            ap (λ x. x && not (session_exists a h.db)) g ∙ ap not s in
          subst (Matches (handle_write_compact_result a b l2 l3 now h))
            (sym (
              promise_refused a b l2 l3 p (sym (m.talk a b) ∙ ap summaries f)
                (sym guarded ∙ open_guard)))
            (rw (u, handle_write_compact_result) (m, refl))
      | inr (done, works, f) ↦ absurd (ground (arith, works, u))
    ]
    | inr (done, u) ↦ elim (Option-cases (find_talk a b h.db.talks)) [
      | inl f ↦
          subst (Matches (handle_write_compact_result a b l2 l3 now h))
            (sym (
              promise_new a b l2 l3 p (sym (m.talk a b) ∙ ap summaries f)
                (sym guarded ∙ unguarded done u f)))
            (rw (u, handle_write_compact_result) (written_Meets done (l2, l3) u (rw f refl), refl))
      | inr (old, f) ↦
          subst (Matches (handle_write_compact_result a b l2 l3 now h))
            (sym (
              promise_old a b l2 old.summary_l2 l3 old.summary_l3 p
                (sym (m.talk a b) ∙ ap summaries f)))
            (rw (u, handle_write_compact_result)
              (written_Meets done (l2, coalesce l3 old.summary_l3) u (rw f refl), refl))
    ]
  ]

-- Every direct request does to the agent what it is promised to do, with the promised answer.
handle-Matches :
    (files : Files) (now : ℕ) (r : Request) (h : Handler) (p : Promise)
    → IsDirect r
    → Meets h p
    → Matches (handle files now r h) (promise r p)
unfolding handle handle_query pause resume handle_write_index_result handle_write_approve_result
handle-Matches files now (handshake component version) h p d m = (m, refl)
handle-Matches files now (notify_file_change path) h p d m = absurd d
handle-Matches files now (write_index_result session_id ids) h p d m =
    let (e, f, g) = indexed_same ids h.db in (same_db h p _ e f g m, refl)
handle-Matches files now (write_compact_result a b l2 l3) h p d m =
    compact_Matches a b l2 l3 now h p m
handle-Matches files now (write_approve_result call verdict at) h p d m = (
  same_db h p _ (approved_same call verdict at h.db).0 (approved_same call verdict at h.db).1
      (approved_same call verdict at h.db).2 m,
  refl,
)
handle-Matches files now heartbeat h p d m = (m, refl)
handle-Matches files now (query status) h p d m = (m, ap status_is m.connections)
handle-Matches files now (query connection_count_of) h p d m = (m, ap count_is m.connections)
handle-Matches files now (query sync_status) h p d m =
    (m, ap (λ x. sync_is x h.sync_worker.running) m.paused ∙ ap (sync_is p.paused) m.running)
handle-Matches files now (hook_event event) h p d m = absurd d
handle-Matches files now sync_pause h p d m = (
  record {
    paused = refl;
    running = m.running;
    connections = m.connections;
    enforced = m.enforced;
    has_session = m.has_session;
    talk = m.talk;
  },
  refl,
)
handle-Matches files now sync_resume h p d m = (
  record {
    paused = refl;
    running = m.running;
    connections = m.connections;
    enforced = m.enforced;
    has_session = m.has_session;
    talk = m.talk;
  },
  refl,
)

-- Any number of direct requests, at any times, in any order: the agent gives the answers that were
-- promised, and is afterwards as promised.
pub handle_all-Meets :
    (files : Files) (rs : List (ℕ × Request)) (h : Handler) (p : Promise)
    → AreDirect rs
    → Meets h p
    → Meets (handle_all files rs h).0 (promise_all rs p).0
      × ((handle_all files rs h).1 ≡ (promise_all rs p).1)
unfolding handle_all
handle_all-Meets files [] h p d m = (m, refl)
handle_all-Meets files ((now, r) ∷ rs) h p (d, ds) m =
    let (step, answer) = handle-Matches files now r h p d m in
    let (rest, answers) =
      handle_all-Meets files rs (handle files now r h).0 (promise r p).0 ds step in
    (
      rest,
      ap (λ x. x ∷ (handle_all files rs (handle files now r h).0).1) answer
          ∙ ap (◌∷◌ (promise r p).1) answers,
    )
