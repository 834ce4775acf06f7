-- ===== src/Agent/Handler/Sound.antt =====
-- src/agent/handler.rs: what stays true of the databases whatever clients ask and files hold.
use ai_cli_session_db.Prelude.{
  ℕ, String, Text, List, [], ◌∷◌, Option, none, some, Bool, true, false, ◌≡◌, refl, ap, ◌∙◌, inl,
  inr, str_eq, if◌then◌else◌, Option-cases, Bool-cases, arith, map, is_some_and, ◌++◌,
}
use ai_cli_session_db.Db.{indexed, SessionDb, Message, ApprovalStatus, VectorIndexed}
use ai_cli_session_db.Db.Messages.{has_uuid}
use ai_cli_session_db.Db.Messages.Insert.{UniqueUuids}
use ai_cli_session_db.Db.Index.{mark_messages_indexed, set_indexed, has_id}
use ai_cli_session_db.Db.Approvals.{update_approval_status_by_tool_call_id, resolve}
use ai_cli_session_db.Db.Talks.{upsert_talk_summary, upsert_talk_summary-frame}
use ai_cli_session_db.Sync.Worker.{pause, resume, Kept, command-Kept, pausing, resuming}
use ai_cli_session_db.Db.Sound.{IsSound, Linked-same, IsSound-Untouched}
use ai_cli_session_db.Agent.Handler.Collected.{trigger_collect-IsSound}
use ai_cli_session_db.Agent.Handler.{
  ok, error, HookEvent, Files, Request, Response, Handler, handle, handle_all, handshake,
  notify_file_change, write_index_result, write_compact_result, write_approve_result, heartbeat,
  query, hook_event, sync_pause, sync_resume, trigger_session, trigger_collect, handle_file_change,
  handle_hook_event, handle_write_index_result, handle_write_compact_result,
  handle_write_approve_result,
}

-- An update of messages that leaves the uuids.
has_uuid-map :
    (f : Message → Message) (u : String) (ms : List Message)
    → ((m : Message) → (f m).uuid ≡ m.uuid)
    → has_uuid u (map f ms) ≡ has_uuid u ms
has_uuid-map f u [] h = refl
has_uuid-map f u (m ∷ ms) h = ground (arith, h m, has_uuid-map f u ms h)

UniqueUuids-map :
    (f : Message → Message) (ms : List Message)
    → ((m : Message) → (f m).uuid ≡ m.uuid)
    → UniqueUuids ms
    → UniqueUuids (map f ms)
UniqueUuids-map f [] h u = tt
UniqueUuids-map f (m ∷ ms) h (u, us) = (
  ap (λ k. has_uuid k (map f ms)) (h m) ∙ has_uuid-map f m.uuid ms h ∙ u,
  UniqueUuids-map f ms h us,
)

set_indexed-uuid :
    (v : VectorIndexed) (p : Message → Bool) (m : Message) → (set_indexed v p m).uuid ≡ m.uuid
set_indexed-uuid v p m = ground arith

resolve-uuid :
    (p : Message → Bool) (verdict : ApprovalStatus) (at : ℕ) (m : Message)
    → (resolve p verdict at m).uuid ≡ m.uuid
resolve-uuid p verdict at m = ground arith

marked-IsSound :
    (ids : List ℕ) (db : SessionDb) → IsSound db → IsSound (mark_messages_indexed ids db).0
unfolding mark_messages_indexed
marked-IsSound [] db s = s
marked-IsSound (i ∷ ids) db (l, u) = (
  Linked-same db (mark_messages_indexed (i ∷ ids) db).0 refl refl l,
  UniqueUuids-map (set_indexed indexed (has_id (i ∷ ids))) db.messages
      (set_indexed-uuid indexed (has_id (i ∷ ids))) u,
)

approved-IsSound :
    (call : String) (verdict : ApprovalStatus) (at : ℕ) (db : SessionDb)
    → IsSound db
    → IsSound (update_approval_status_by_tool_call_id call verdict at db).0
unfolding update_approval_status_by_tool_call_id
approved-IsSound call verdict at db (l, u) =
    let p = λ (m : Message). is_some_and m.tool_call_id (λ c. str_eq c call) in
    (
      Linked-same db (update_approval_status_by_tool_call_id call verdict at db).0 refl refl l,
      UniqueUuids-map (resolve p verdict at) db.messages (resolve-uuid p verdict at) u,
    )

-- The databases are sound, and a worker that runs has the flag that sync.db keeps.
abbrev pub AgentSound : Handler → Type 0
AgentSound h = IsSound h.db × (h.sync_worker.running ≡ true → Kept (h.sync_worker, h.sync_db))

triggered-AgentSound :
    (id : String) (h : Handler) → AgentSound h → AgentSound (trigger_session id h)
unfolding trigger_session
triggered-AgentSound id h s = from h.sync_worker.running
  where
    from : (b : Bool) → AgentSound (if b then record h { triggers = h.triggers ++ id ∷ [] } else h)
    from true = s
    from false = s

file_change-AgentSound :
    (files : Files) (path : String) (now : ℕ) (h : Handler)
    → AgentSound h
    → AgentSound (handle_file_change files path now h).0
unfolding handle_file_change
file_change-AgentSound files path now h (d, k) =
    from (trigger_collect files path now h.db).1 (files.file_stem path)
  where
    stored : Handler
    stored = record h { db = (trigger_collect files path now h.db).0 }

    sound : AgentSound stored
    sound = (trigger_collect-IsSound files path now h.db d, k)

    from :
        (b : Bool) (o : Option String)
        → AgentSound
            (if◌then◌else◌ {A = Handler × Response} b
              (elim o [ none ↦ stored | some id ↦ trigger_session id stored ], ok)
              (stored, error 500 "Collection failed")).0
    from false o = sound
    from true none = sound
    from true (some id) = triggered-AgentSound id stored sound

hook_event-AgentSound :
    (files : Files) (event : HookEvent) (now : ℕ) (h : Handler)
    → AgentSound h
    → AgentSound (handle_hook_event files event now h).0
unfolding handle_hook_event
hook_event-AgentSound files event now h (d, k) = from event.transcript_path
  where
    from :
        (o : Option String)
        → AgentSound
            (elim o as (λ x. Handler × Response) [
              | none ↦ (h, ok)
              | some path ↦
                  if files.exists path
                  then (
                    trigger_session event.session_id
                        (record h { db = (trigger_collect files path now h.db).0 }),
                    ok,
                  )
                  else (h, ok)
            ]).0
    from none = (d, k)
    from (some path) = elim (Bool-cases (files.exists path)) [
      | inl e ↦ rw e (
          triggered-AgentSound event.session_id
            (record h { db = (trigger_collect files path now h.db).0 })
            (trigger_collect-IsSound files path now h.db d, k))
      | inr e ↦ rw e (d, k)
    ]

compact-AgentSound :
    (a b : String) (l2 : Text) (l3 : Option Text) (now : ℕ) (h : Handler)
    → AgentSound h
    → AgentSound (handle_write_compact_result a b l2 l3 now h).0
unfolding handle_write_compact_result
compact-AgentSound a b l2 l3 now h (d, k) =
    elim (Option-cases (upsert_talk_summary a b l2 l3 now h.db)) [
      | inl e ↦ rw (e, handle_write_compact_result) (d, k)
      | inr (done, e) ↦
          let frame = upsert_talk_summary-frame a b l2 l3 now h.db done e in
          rw (e, handle_write_compact_result)
            (IsSound-Untouched h.db done (frame.2, frame.3, frame.4) d, k)
    ]

handle-AgentSound :
    (files : Files) (now : ℕ) (r : Request) (h : Handler)
    → AgentSound h
    → AgentSound (handle files now r h).0
unfolding handle handle_write_index_result handle_write_approve_result pause resume
handle-AgentSound files now (handshake component version) h s = s
handle-AgentSound files now (notify_file_change path) h s =
    file_change-AgentSound files path now h s
handle-AgentSound files now (write_index_result session_id ids) h (d, k) =
    (marked-IsSound ids h.db d, k)
handle-AgentSound files now (write_compact_result a b l2 l3) h s =
    compact-AgentSound a b l2 l3 now h s
handle-AgentSound files now (write_approve_result call verdict at) h (d, k) =
    (approved-IsSound call verdict at h.db d, k)
handle-AgentSound files now heartbeat h s = s
handle-AgentSound files now (query q) h s = s
handle-AgentSound files now (hook_event event) h s = hook_event-AgentSound files event now h s
handle-AgentSound files now sync_pause h (d, k) =
    (d, λ r. command-Kept pausing (h.sync_worker, h.sync_db) (k r))
handle-AgentSound files now sync_resume h (d, k) =
    (d, λ r. command-Kept resuming (h.sync_worker, h.sync_db) (k r))

-- Whatever clients ask, in any order and at any times, and whatever the files that are collected
-- hold, the uuids of messages stay distinct, the continuation chains stay linked, and the flag of a
-- worker that runs stays the one that a restart would read from sync.db.
pub handle_all-AgentSound :
    (files : Files) (rs : List (ℕ × Request)) (h : Handler)
    → AgentSound h
    → AgentSound (handle_all files rs h).0
unfolding handle_all
handle_all-AgentSound files [] h s = s
handle_all-AgentSound files ((now, r) ∷ rs) h s =
    handle_all-AgentSound files rs (handle files now r h).0 (handle-AgentSound files now r h s)
