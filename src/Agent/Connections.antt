-- ===== src/Agent/Connections.antt =====
-- src/agent/broadcaster.rs, `ConnectionManager`. The channels are tokio's: a sender is any type with
-- a test for a closed channel and a test for a message that is taken. The map is an association list
-- in which a key stands once.
pub mod Fresh
use mathlib.Core.Option
use ai_cli_session_db.Prelude.{
  ℕ, suc, ◌+◌, ◌%◌, ◌^◌, ◌<◌, ◌≤◌, List, [], ◌∷◌, Option, none, some, Bool, true, false, not, ◌≡◌,
  refl, ap, inl, inr, retain, length, Has, Has-retain, is_some_and, ltb, ◌==◌, ==_iff,
  if◌then◌else◌, Bool-cases, arith, String,
}

module _ {S : Type 0} where
  -- `HashMap::get`.
  unfoldable pub lookup : ℕ → List (ℕ × S) → Option S
  lookup k [] = none
  lookup k ((j, s) ∷ rows) = let rest = lookup k rows in if j == k then some s else rest

  -- `HashMap::remove`.
  unfoldable pub remove : ℕ → List (ℕ × S) → List (ℕ × S)
  remove k rows = retain (λ r. not (r.0 == k)) rows

pub record ConnectionManager (S : Type 0) : Type 0 where
  pub senders : List (ℕ × S)
  pub next_conn_id : ℕ

module _ {S : Type 0} where
  abbrev pub new_manager : ConnectionManager S
  new_manager = record { senders = []; next_conn_id = 1 }

  -- The counter is a `u64`.
  unfoldable pub register : S → ConnectionManager S → ConnectionManager S × ℕ
  unfolding remove
  register sender m = (
    record {
      senders = (m.next_conn_id, sender) ∷ remove m.next_conn_id m.senders;
      next_conn_id = (m.next_conn_id + 1) % 2 ^ 64;
    },
    m.next_conn_id,
  )

  unfoldable pub unregister : ℕ → ConnectionManager S → ConnectionManager S
  unfolding remove
  unregister conn_id m = record m { senders = remove conn_id m.senders }

  unfoldable pub connection_count : ConnectionManager S → ℕ
  connection_count m = length m.senders

  -- What is left, and how many.
  unfoldable pub cleanup_closed : (S → Bool) → ConnectionManager S → ConnectionManager S × ℕ
  cleanup_closed is_closed m =
      let left = retain (λ r. not (is_closed r.1)) m.senders in
      (record m { senders = left }, length left)

  unfoldable pub has_connections : (S → Bool) → ConnectionManager S → ConnectionManager S × Bool
  has_connections is_closed m = let (m', count) = cleanup_closed is_closed m in (m', ltb 0 count)

  -- `send_to` and `try_send_to`, which differ in the channel's own operation.
  unfoldable pub send_to : (S → String → Bool) → ℕ → String → ConnectionManager S → Bool
  send_to takes conn_id message m = is_some_and (lookup conn_id m.senders) (λ s. takes s message)

  lookup-remove :
      (k j : ℕ) (rows : List (ℕ × S))
      → lookup j (remove k rows) ≡ (if k == j then none else lookup j rows)
  unfolding lookup remove
  lookup-remove k j [] = ground arith
  lookup-remove k j ((i, s) ∷ rows) = ground (arith, lookup-remove k j rows)

  -- After a registration a message for the new id goes to the new channel, and a message for any
  -- other id where it went before.
  pub send_to-register :
      (takes : S → String → Bool) (sender : S) (m : ConnectionManager S) (id : ℕ) (message : String)
      → let (m', new_id) = register sender m in
        send_to takes id message m'
        ≡ (if new_id == id then takes sender message else send_to takes id message m)
  unfolding send_to register lookup
  send_to-register takes sender m id message =
      ground (arith, lookup-remove m.next_conn_id id m.senders)
