-- ===== src/Sync/Client/Passes.antt =====
-- src/sync/client.rs: what the requests of a push by id and of a full pass carry.
use ai_cli_session_db.Prelude.{
  ℕ, String, List, [], ◌∷◌, Option, none, some, ◌≡◌, inl, inr, Option-cases, Bool-cases, subst,
}
use ai_cli_session_db.Sync.Batch.{SyncMessage}
use ai_cli_session_db.Sync.Collect.{session_path, list_sessions_with_new_messages}
use ai_cli_session_db.Sync.Cursors.{get_cursor}
use ai_cli_session_db.Sync.Filter.{is_allowed}
use ai_cli_session_db.Sync.Client.{Job, Run, sync_session}
use ai_cli_session_db.Sync.Client.Leaving.{MayLeave, SafeMessage-MayLeave}
use ai_cli_session_db.Sync.Client.Safe.{AllSent, sync_session-AllSent}
use ai_cli_session_db.Sync.Client.Once.{
  SyncStats, sync_single_session, sync_sessions, sync_once, job_for, count_session,
}

-- What is left of a run that came back.
abbrev pub Carries : {A : Type 0} → (SyncMessage → Type 0) → Option (Run × A) → Type 0
Carries P none = Unit
Carries P (some (run, result)) = AllSent P run.sent

pub Carries-some :
    {A : Type 0} (P : SyncMessage → Type 0) (o : Option (Run × A)) (run : Run) (result : A)
    → Carries P o
    → o ≡ some (run, result)
    → AllSent P run.sent
Carries-some P o run result h e = subst (Carries P) e h

module _ (P : SyncMessage → Type 0) where
  sync_session-Carries :
      (fuel : ℕ) (j : Job) (run : Run)
      → ((m : SyncMessage) → MayLeave j.client j.db m → P m)
      → AllSent P run.sent
      → Carries P (sync_session fuel j run)
  sync_session-Carries fuel j run leave h = elim (Option-cases (sync_session fuel j run)) [
    | inl e ↦ rw e tt
    | inr ((end, stats), e) ↦ rw e (
        sync_session-AllSent P fuel j run end stats
          (λ m s. leave m (SafeMessage-MayLeave j (get_cursor j.session_id run.sync_db).0 m s)) h e)
  ]

  pub sync_single_session-Carries :
      (fuel : ℕ) (j : Job) (run : Run)
      → ((m : SyncMessage) → MayLeave j.client j.db m → P m)
      → AllSent P run.sent
      → Carries P (sync_single_session fuel j run)
  unfolding sync_single_session
  sync_single_session-Carries fuel j run leave h =
      elim (Option-cases (session_path j.session_id j.db)) [
        | inl e ↦ rw (e, sync_single_session) h
        | inr (path, e) ↦ elim (Bool-cases (is_allowed j.client.project_filter path)) [
          | inl f ↦
              rw (e, f, sync_single_session)
                (sync_session-Carries fuel (record j { project_path = path }) run leave h)
          | inr f ↦ rw (e, f, sync_single_session) h
        ]
      ]

  sync_sessions-Carries :
      (fuel : ℕ) (j : Job) (ss : List (String × String)) (run : Run) (stats : SyncStats)
      → ((m : SyncMessage) → MayLeave j.client j.db m → P m)
      → AllSent P run.sent
      → Carries P (sync_sessions fuel j ss run stats)
  unfolding sync_sessions
  sync_sessions-Carries fuel j [] run stats leave h = h
  sync_sessions-Carries fuel j (s ∷ ss) run stats leave h =
      elim (Option-cases (sync_session fuel (job_for j s) run)) [
        | inl e ↦ rw (e, sync_sessions) tt
        | inr ((end, result), e) ↦
            rw (e, sync_sessions)
              (sync_sessions-Carries fuel j ss end (count_session result stats) leave (
                Carries-some P (sync_session fuel (job_for j s) run) end result
                  (sync_session-Carries fuel (job_for j s) run leave h) e))
      ]

  pub sync_once-Carries :
      (fuel : ℕ) (j : Job) (run : Run)
      → ((m : SyncMessage) → MayLeave j.client j.db m → P m)
      → AllSent P run.sent
      → Carries P (sync_once fuel j run)
  unfolding sync_once
  sync_once-Carries fuel j run leave h =
      sync_sessions-Carries fuel j
        (list_sessions_with_new_messages j.client.project_filter run.sync_db j.db) run
        (record {
          sessions_synced = 0;
          sessions_failed = 0;
          messages_pushed = 0;
          messages_skipped = 0;
        })
        leave h
