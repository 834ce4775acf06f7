-- ===== src/Agent/Handler/Promise.antt =====
-- What src/agent/handler.rs promises its clients: an abstract agent with a flag, a number of
-- connections and a map of summaries.
use ai_cli_session_db.Prelude.{
  ℕ, String, Text, List, [], ◌∷◌, Option, none, some, Bool, true, false, not, ◌&&◌, ◌≡◌, str_eq,
  if◌then◌else◌,
}
use ai_cli_session_db.Db.{Talk}
use ai_cli_session_db.Db.Sessions.{session_exists, coalesce}
use ai_cli_session_db.Db.Talks.{find_talk}
use ai_cli_session_db.Agent.Connections.{connection_count}
use ai_cli_session_db.Agent.Handler.{
  Request, Response, Handler, handshake, notify_file_change, write_index_result,
  write_compact_result, write_approve_result, heartbeat, query, hook_event, sync_pause, sync_resume,
  ok, handshake_ok, error, status_is, count_is, sync_is, status, connection_count_of, sync_status,
}

pub record Promise : Type 0 where
  pub paused : Bool
  pub running : Bool
  pub connections : ℕ
  -- Whether a summary needs its session.
  pub enforced : Bool
  pub has_session : String → Bool
  pub talk : String → String → Option (Text × Option Text)

abbrev pub put_talk : String → String → Text → Option Text → Promise → Promise
put_talk a b l2 l3 p = record p {
  talk = λ c d. if str_eq a c && str_eq b d then some (l2, l3) else p.talk c d;
}

-- A summary replaces the old one, whose L3 part stays where none is given.
abbrev pub promise_talk : String → String → Text → Option Text → Promise → Promise × Response
promise_talk a b l2 l3 p = elim (p.talk a b) [
  | some (old2, old3) ↦ (put_talk a b l2 (coalesce l3 old3) p, ok)
  | none ↦
      if p.enforced && not (p.has_session a)
      then (p, error 500 "Failed to write compact result")
      else (put_talk a b l2 l3 p, ok)
]

-- What a request does, those that collect a file apart.
abbrev pub promise : Request → Promise → Promise × Response
promise (handshake component version) p = (p, handshake_ok)
promise (notify_file_change path) p = (p, ok)
promise (write_index_result session_id ids) p = (p, ok)
promise (write_compact_result a b l2 l3) p = promise_talk a b l2 l3 p
promise (write_approve_result call verdict at) p = (p, ok)
promise heartbeat p = (p, ok)
promise (query status) p = (p, status_is p.connections)
promise (query connection_count_of) p = (p, count_is p.connections)
promise (query sync_status) p = (p, sync_is p.paused p.running)
promise (hook_event event) p = (p, ok)
promise sync_pause p = (record p { paused = true }, ok)
promise sync_resume p = (record p { paused = false }, ok)

abbrev pub promise_all : List (ℕ × Request) → Promise → Promise × List Response
promise_all [] p = (p, [])
promise_all ((now, r) ∷ rs) p =
    let (p1, answer) = promise r p in
    let (p2, answers) = promise_all rs p1 in (p2, answer ∷ answers)

-- Requests that do not collect a file.
abbrev pub IsDirect : Request → Type 0
IsDirect (notify_file_change path) = ⊥
IsDirect (hook_event event) = ⊥
IsDirect (handshake component version) = Unit
IsDirect (write_index_result session_id ids) = Unit
IsDirect (write_compact_result a b l2 l3) = Unit
IsDirect (write_approve_result call verdict at) = Unit
IsDirect heartbeat = Unit
IsDirect (query q) = Unit
IsDirect sync_pause = Unit
IsDirect sync_resume = Unit

abbrev pub AreDirect : List (ℕ × Request) → Type 0
AreDirect [] = Unit
AreDirect (r ∷ rs) = IsDirect r.1 × AreDirect rs

-- The summaries of a row.
abbrev pub summaries : Option Talk → Option (Text × Option Text)
summaries none = none
summaries (some t) = some (t.summary_l2, t.summary_l3)

-- The agent is as promised.
pub record Meets (h : Handler) (p : Promise) : Type 0 where
  pub paused : h.sync_worker.paused ≡ p.paused
  pub running : h.sync_worker.running ≡ p.running
  pub connections : connection_count h.connections ≡ p.connections
  pub enforced : h.db.foreign_keys ≡ p.enforced
  pub has_session : (id : String) → session_exists id h.db ≡ p.has_session id
  pub talk : (a b : String) → summaries (find_talk a b h.db.talks) ≡ p.talk a b
