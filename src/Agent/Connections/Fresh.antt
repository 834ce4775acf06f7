-- ===== src/Agent/Connections/Fresh.antt =====
-- The ids that ConnectionManager (src/agent/broadcaster.rs) hands out, over whole histories.
use ai_cli_session_db.Prelude.{
  ℕ, suc, ◌+◌, ◌^◌, ◌<◌, ◌≤◌, List, [], ◌∷◌, Bool, ◌≡◌, refl, ap, retain, length, All, arith,
}
use ai_cli_session_db.Agent.Connections.{
  ConnectionManager, new_manager, register, unregister, cleanup_closed, remove, connection_count,
}

module _ {S : Type 0} where
  -- The managers that come of `n` registrations and any other operations between them.
  pub data Reachable : ℕ → ConnectionManager S → Type 0 where
    begin : Reachable 0 new_manager
    registered :
        {n : ℕ} {m : ConnectionManager S} (s : S)
        → Reachable n m
        → Reachable (suc n) (register s m).0
    unregistered :
        {n : ℕ} {m : ConnectionManager S} (id : ℕ) → Reachable n m → Reachable n (unregister id m)
    cleaned :
        {n : ℕ} {m : ConnectionManager S} (is_closed : S → Bool)
        → Reachable n m
        → Reachable n (cleanup_closed is_closed m).0

  abbrev Below : ℕ → List (ℕ × S) → Type 0
  Below n rows = All (λ r. r.0 ≤ n) rows

  Below-retain :
      (p : ℕ × S → Bool) (n : ℕ) (rows : List (ℕ × S)) → Below n rows → Below n (retain p rows)
  Below-retain p n [] h = tt
  Below-retain p n (r ∷ rows) h = ground (arith, Below-retain p n rows h.1)

  Below-suc : (n : ℕ) (rows : List (ℕ × S)) → Below n rows → Below (suc n) rows
  Below-suc n [] h = tt
  Below-suc n (r ∷ rows) h = (omega (arith, h.0), Below-suc n rows h.1)

  remove_none : (n k : ℕ) (rows : List (ℕ × S)) → Below n rows → n < k → remove k rows ≡ rows
  unfolding remove
  remove_none n k [] h lt = refl
  remove_none n k (r ∷ rows) h lt = ground (arith, h.0, remove_none n k rows h.1 lt)

  Reachable-Below :
      (n : ℕ) (m : ConnectionManager S)
      → Reachable n m
      → n + 1 < 2 ^ 64
      → (m.next_conn_id ≡ n + 1) × Below n m.senders
  unfolding register unregister cleanup_closed remove
  Reachable-Below _ _ begin lt = (refl, tt)
  Reachable-Below _ _ (registered {n} {m} s r) lt =
      let (next, below) = Reachable-Below n m r (omega arith) in
      (
        omega (arith, next, lt),
        (omega (arith, next), Below-suc n _ (Below-retain _ n m.senders below)),
      )
  Reachable-Below _ _ (unregistered {n} {m} id r) lt =
      let (next, below) = Reachable-Below n m r lt in (next, Below-retain _ n m.senders below)
  Reachable-Below _ _ (cleaned {n} {m} is_closed r) lt =
      let (next, below) = Reachable-Below n m r lt in (next, Below-retain _ n m.senders below)

  -- After `n` registrations, whatever was unregistered and cleaned up between them, and as long as
  -- the 64-bit counter has room, the next id is `n + 1`, which no earlier registration was given,
  -- and the registration adds exactly one connection.
  pub register-fresh :
      (n : ℕ) (m : ConnectionManager S) (s : S)
      → Reachable n m
      → n + 1 < 2 ^ 64
      → ((register s m).1 ≡ n + 1)
        × All (λ r. r.0 < (register s m).1) m.senders
        × (connection_count (register s m).0 ≡ connection_count m + 1)
  unfolding register connection_count remove
  register-fresh n m s r lt =
      let (next, below) = Reachable-Below n m r lt in
      (
        next,
        smaller n m.next_conn_id m.senders below (omega (arith, next)),
        omega
            (arith, ap length (remove_none n m.next_conn_id m.senders below (omega (arith, next)))),
      )
    where
      smaller : (n k : ℕ) (rows : List (ℕ × S)) → Below n rows → n < k → All (λ r. r.0 < k) rows
      smaller n k [] h lt = tt
      smaller n k (r ∷ rows) h lt = (omega (arith, h.0), smaller n k rows h.1 lt)
