-- ===== src/Sync/Client/Loop.antt =====
-- The loop of sync_session (src/sync/client.rs): its rule for invariants.
use ai_cli_session_db.Prelude.{ℕ, zero, suc, Option, some, ◌≡◌, refl, subst}
use ai_cli_session_db.Sync.Client.{
  Job, Progress, Next, failed, returned, broke, again, sync_step, sync_loop,
}

module _ (j : Job) where
  -- The loop ends with the step that says so, or goes on behind it.
  pub sync_loop-suc :
      (fuel : ℕ) (p : Progress) (n : Next)
      → (sync_step j p).1 ≡ n
      → sync_loop (suc fuel) j p ≡ elim n [
        | again ↦ sync_loop fuel j (sync_step j p).0
        | failed ↦ some ((sync_step j p).0, failed)
        | returned ↦ some ((sync_step j p).0, returned)
        | broke ↦ some ((sync_step j p).0, broke)
      ]
  unfolding sync_loop
  sync_loop-suc fuel p n e = rw (e, sync_loop)

  ended :
      (P : Progress → Type 0) (p q : Progress) (n next : Next)
      → P p
      → ◌≡◌ {A = Option (Progress × Next)} (some (p, n)) (some (q, next))
      → P q
  ended P p q n next h e = subst P (cc) h

  -- What every step keeps holds at the end of the loop.
  pub sync_loop_inv :
      (P : Progress → Type 0)
      → ((p : Progress) → P p → P (sync_step j p).0)
      → (fuel : ℕ) (p q : Progress) (next : Next) → P p
      → sync_loop fuel j p ≡ some (q, next)
      → P q
  unfolding sync_loop
  sync_loop_inv P keep zero p q next h e = cc
  sync_loop_inv P keep (suc fuel) p q next h e =
      go (sync_step j p).1 refl (sync_loop_inv P keep fuel (sync_step j p).0 q next (keep p h))
    where
      go :
          (n : Next)
          → (sync_step j p).1 ≡ n
          → (sync_loop fuel j (sync_step j p).0 ≡ some (q, next) → P q)
          → P q
      go again f later = later (rw (f, sync_loop) at e)
      go failed f later =
          ended P (sync_step j p).0 q failed next (keep p h) (rw (f, sync_loop) at e)
      go returned f later =
          ended P (sync_step j p).0 q returned next (keep p h) (rw (f, sync_loop) at e)
      go broke f later = ended P (sync_step j p).0 q broke next (keep p h) (rw (f, sync_loop) at e)
