-- ===== src/Agent/Tests.antt =====
-- The theorems of Agent at concrete connections, whose channels are numbers.
mod Requests
use ai_cli_session_db.Prelude.{
  ℕ, ◌+◌, ◌<◌, max, String, [], ◌∷◌, Bool, true, false, ◌≡◌, All, ◌==◌, leb, if◌then◌else◌, arith,
}
use ai_cli_session_db.Agent.Connections.{
  ConnectionManager, new_manager, register, unregister, send_to, connection_count, send_to-register,
}
use ai_cli_session_db.Agent.Connections.Fresh.{begin, registered, unregistered, register-fresh}
use ai_cli_session_db.Agent.Idle.{ticks, idle_threshold, idle_since, ticks-shutdown}

abbrev first_two : ConnectionManager ℕ
first_two = (register 8 (register 7 new_manager).0).0

register-fresh_example :
    ((register 9 (unregister 2 first_two)).1 ≡ 2 + 1)
    × All (λ r. r.0 < (register 9 (unregister 2 first_two)).1) (unregister 2 first_two).senders
    × (connection_count (register 9 (unregister 2 first_two)).0
        ≡ connection_count (unregister 2 first_two) + 1)
register-fresh_example =
    register-fresh 2 (unregister 2 first_two) 9 (unregistered 2 (registered 8 (registered 7 begin)))
      (omega arith)

ticks-shutdown_example :
    let hs = true ∷ false ∷ false ∷ [] in
    let c = ticks 10 hs (record { idle_count = 0; shutdown = false }) in
    (c.idle_count ≡ idle_since 0 hs)
    × (c.shutdown ≡ leb (max 1 (idle_threshold 10)) (idle_since 0 hs))
ticks-shutdown_example = ticks-shutdown 10 (true ∷ false ∷ false ∷ [])
