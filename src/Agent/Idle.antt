-- ===== src/Agent/Idle.antt =====
-- src/agent/server.rs, `idle_checker`: a tick every five seconds counts up while there are no
-- connections. A tick is what `has_connections` answers.
use ai_cli_session_db.Prelude.{
  ℕ, ◌+◌, ◌/◌, max, List, [], ◌∷◌, Bool, true, false, not, ◌&&◌, leb, if◌then◌else◌, ◌≡◌, refl, ap,
  sym, ◌∙◌, arith,
}

pub record IdleChecker : Type 0 where
  pub idle_count : ℕ
  pub shutdown : Bool

abbrev pub idle_threshold : ℕ → ℕ
idle_threshold idle_timeout_secs = idle_timeout_secs / 5

-- One pass of the loop.
unfoldable pub tick : ℕ → Bool → IdleChecker → IdleChecker
tick timeout has_connections c =
    if has_connections
    then record { idle_count = 0; shutdown = if c.shutdown then false else c.shutdown }
    else let idle = c.idle_count + 1 in
      record {
        idle_count = idle;
        shutdown = if leb (idle_threshold timeout) idle && not c.shutdown then true else c.shutdown;
      }

-- The ticks in their order.
unfoldable pub ticks : ℕ → List Bool → IdleChecker → IdleChecker
ticks timeout [] c = c
ticks timeout (h ∷ hs) c = ticks timeout hs (tick timeout h c)

-- How many ticks ago there was a connection, counting on from `n`.
abbrev pub idle_since : ℕ → List Bool → ℕ
idle_since n [] = n
idle_since n (true ∷ hs) = idle_since 0 hs
idle_since n (false ∷ hs) = idle_since (n + 1) hs

ticks_lem :
    (timeout : ℕ) (hs : List Bool) (n : ℕ)
    → ticks timeout hs
        (record { idle_count = n; shutdown = leb (max 1 (idle_threshold timeout)) n })
      ≡ record {
        idle_count = idle_since n hs;
        shutdown = leb (max 1 (idle_threshold timeout)) (idle_since n hs);
      }
unfolding ticks tick
ticks_lem timeout [] n = refl
ticks_lem timeout (true ∷ hs) n = ap (ticks timeout hs) (ground arith) ∙ ticks_lem timeout hs 0
ticks_lem timeout (false ∷ hs) n =
    ap (ticks timeout hs) (ground arith) ∙ ticks_lem timeout hs (n + 1)

-- The agent is shutting down exactly if the last ticks without a connection are at least as many as
-- the timeout has periods of five seconds, and at least one; a connection cancels the shutdown.
pub ticks-shutdown :
    (timeout : ℕ) (hs : List Bool)
    → let c = ticks timeout hs (record { idle_count = 0; shutdown = false }) in
      (c.idle_count ≡ idle_since 0 hs)
      × (c.shutdown ≡ leb (max 1 (idle_threshold timeout)) (idle_since 0 hs))
ticks-shutdown timeout hs =
    let same = ticks_lem timeout hs 0 in
    let begin : leb (max 1 (idle_threshold timeout)) 0 ≡ false = ground arith in
    let e =
      ap (λ b. ticks timeout hs (record { idle_count = 0; shutdown = b })) (sym begin) ∙ same in
    (ap (λ c. c.idle_count) e, ap (λ c. c.shutdown) e)
