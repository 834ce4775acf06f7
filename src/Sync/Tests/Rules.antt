-- ===== src/Sync/Tests/Rules.antt =====
-- The theorems of the filters and of the worker's state at concrete inputs.
use ai_cli_session_db.Prelude.{[], ◌∷◌, none, true, false, ◌≡◌, ◌↔◌, refl, inl, inr, Has, min, ◌^◌}
use ai_cli_session_db.Sync.Batch.{SyncBatch, SyncProject}
use ai_cli_session_db.Sync.Filter.{
  is_allowed, allowed_paths, allowed_sessions, filter_projects, filter_words,
}
use ai_cli_session_db.Sync.Filter.Words.{MessageClean, block_batch-messages}
use ai_cli_session_db.Sync.Worker.{
  start_worker, commands, pausing, resetting, storing, start_worker-commands, delays, failures,
  delays_lem,
}
use ai_cli_session_db.Sync.Tests.{
  batch_of, sent_message, sync_project, no_secrets, sevens, empty_sync,
}

-- A batch of two projects, of which one may not leave.
abbrev secret_project : SyncProject
secret_project = record { path = "/secret"; name = "q"; source = "claude"; repo_url = none }

abbrev mixed : SyncBatch
mixed = record (batch_of (sent_message 1 (7 ∷ []) ∷ sent_message 2 (8 ∷ []) ∷ [])) {
  projects = secret_project ∷ sync_project ∷ [];
}

message_through : Has (sent_message 2 (8 ∷ [])) (filter_projects no_secrets mixed).messages
unfolding filter_projects allowed_paths allowed_sessions is_allowed
message_through = inr (inl refl)

block_batch-messages_example :
    Has (sent_message 2 (8 ∷ [])) (filter_words sevens mixed).messages
    ↔ (Has (sent_message 2 (8 ∷ [])) mixed.messages × MessageClean sevens (sent_message 2 (8 ∷ [])))
block_batch-messages_example = block_batch-messages sevens refl mixed (sent_message 2 (8 ∷ []))

start_worker-commands_example :
    let (w, later) =
      commands
        (pausing ∷ resetting ∷ storing "api_key" "k" ∷ [])
        (start_worker true empty_sync, empty_sync) in
    start_worker true later ≡ w
start_worker-commands_example =
    start_worker-commands (pausing ∷ resetting ∷ storing "api_key" "k" ∷ []) empty_sync

delays_lem_example :
    delays (false ∷ false ∷ true ∷ false ∷ []) 1
    ≡ min (2 ^ failures 0 (false ∷ false ∷ true ∷ false ∷ [])) 60
delays_lem_example = delays_lem (false ∷ false ∷ true ∷ false ∷ [])
