-- ===== src/Sync/Client/Leaving.antt =====
-- What the filters let leave of one read (src/sync/client.rs).
use ai_cli_session_db.Prelude.{
  ℕ, ◌<◌, String, Option, none, some, Bool, true, ltb, ltb→lt, ◌≡◌, refl, sym, ap, ◌∙◌, inl, inr,
  Has, Has-retain, Has-map, Has-take, subst, arith, Option-cases,
}
use ai_cli_session_db.Prelude.Sorting.{sort_by-retain}
use ai_cli_session_db.Db.{SessionDb, Message}
use ai_cli_session_db.Db.Messages.{in_session}
use ai_cli_session_db.Sync.Batch.{SyncBatch, SyncMessage, SyncSession}
use ai_cli_session_db.Sync.Collect.{
  collect_batch, read_messages, sync_message, read_session, read_chains, to_list,
}
use ai_cli_session_db.Sync.Filter.{SensitiveWordFilter, block_mode, is_allowed, filter_projects}
use ai_cli_session_db.Sync.Filter.Projects.{filter_projects-messages, message_allowed}
use ai_cli_session_db.Sync.Filter.Words.{MessageClean, block_batch-messages, words_from}
use ai_cli_session_db.Sync.Client.{SyncClient, Job, filter_batch, pass_words}

-- Only messages above the cursor are read.
pub read_messages-above :
    (raw : Bool) (n : ℕ) (id : String) (after : ℕ) (db : SessionDb) (m : SyncMessage)
    → Has m (read_messages raw n id after db)
    → after < m.sequence
unfolding read_messages sync_message
read_messages-above raw n id after db m h =
    let from = Has-map (sync_message raw) m _ h in
    let ordered = Has-take n from.0 _ from.1 in
    let above =
      Has-retain (λ (r : Message). ltb after r.sequence) from.0 _
        (subst (Has from.0)
          (sort_by-retain (λ r. r.sequence) (λ r. ltb after r.sequence) (in_session id db.messages))
          ordered) in
    omega (arith, ltb→lt after from.0.sequence above.1, ap (λ t. t.sequence) from.2)

-- What a request may carry: a message above the cursor, of a session in an allowed project, and in
-- block mode without a sensitive word.
pub record SafeMessage (j : Job) (cursor : ℕ) (m : SyncMessage) : Type 0 where
  pub above : cursor < m.sequence
  pub allowed :
      (s : SyncSession) × (read_session j.session_id j.db ≡ some s)
      × (s.session_id ≡ m.session_id)
      × (is_allowed j.client.project_filter s.project_path ≡ true)
  pub clean :
      (w : SensitiveWordFilter)
      → j.client.word_filter ≡ some w
      → w.mode ≡ block_mode
      → MessageClean w m

-- The same at any time: a message of a session in an allowed project of the database, without a
-- sensitive word in block mode.
pub record MayLeave (c : SyncClient) (db : SessionDb) (m : SyncMessage) : Type 0 where
  pub allowed :
      (id : String) × (s : SyncSession) × (read_session id db ≡ some s)
      × (s.session_id ≡ m.session_id)
      × (is_allowed c.project_filter s.project_path ≡ true)
  pub clean :
      (w : SensitiveWordFilter) → c.word_filter ≡ some w → w.mode ≡ block_mode → MessageClean w m

pub SafeMessage-MayLeave :
    (j : Job) (cursor : ℕ) (m : SyncMessage) → SafeMessage j cursor m → MayLeave j.client j.db m
SafeMessage-MayLeave j cursor m s = record {
  allowed = (j.session_id, s.allowed.0, s.allowed.1, s.allowed.2, s.allowed.3);
  clean = s.clean;
}

pub collect_batch-parts :
    (raw : Bool) (n : ℕ) (id path : String) (after : ℕ) (db : SessionDb) (batch : SyncBatch)
    → collect_batch raw n id path after db ≡ some batch
    → (batch.messages ≡ read_messages raw n id after db)
      × (batch.sessions ≡ to_list (read_session id db))
unfolding collect_batch
collect_batch-parts raw n id path after db batch e = elim (Option-cases (read_chains id db)) [
  | inl f ↦ absurd (ground arith)
  | inr (r, f) ↦ (ground arith, ground arith)
]

pub the_session :
    (id : String) (db : SessionDb) (s : SyncSession)
    → Has s (to_list (read_session id db))
    → read_session id db ≡ some s
the_session id db s h = go (read_session id db) h
  where
    go : (o : Option SyncSession) → Has s (to_list o) → o ≡ some s
    go none m = absurd m
    go (some t) (inl e) = ap some (sym e)
    go (some t) (inr m) = absurd m

module _ (c : SyncClient) (batch : SyncBatch) (m : SyncMessage) where
  -- A message that leaves comes from one that the allow list lets through.
  pub leaving_from :
      Has m (filter_batch c batch).messages
      → (r : SyncMessage) × Has r (filter_projects c.project_filter batch).messages
        × (r.sequence ≡ m.sequence)
        × (r.session_id ≡ m.session_id)
  leaving_from h = go c.word_filter h
    where
      go :
          (o : Option SensitiveWordFilter)
          → Has m (pass_words o (filter_projects c.project_filter batch)).messages
          → (r : SyncMessage) × Has r (filter_projects c.project_filter batch).messages
            × (r.sequence ≡ m.sequence)
            × (r.session_id ≡ m.session_id)
      go none n = (m, n, refl, refl)
      go (some w) n = words_from w (filter_projects c.project_filter batch) m n

  leaving_clean :
      Has m (filter_batch c batch).messages
      → (w : SensitiveWordFilter) → c.word_filter ≡ some w
      → w.mode ≡ block_mode
      → MessageClean w m
  leaving_clean h w e b =
      ((block_batch-messages w b (filter_projects c.project_filter batch) m).0
        (subst (λ o. Has m (pass_words o (filter_projects c.project_filter batch)).messages) e h)).1

pub filtered_safe :
    (j : Job) (cursor : ℕ) (batch : SyncBatch) (m : SyncMessage)
    → collect_batch j.client.sync_raw j.client.batch_size j.session_id j.project_path cursor j.db
      ≡ some batch
    → Has m (filter_batch j.client batch).messages
    → SafeMessage j cursor m
filtered_safe j cursor batch m e h =
    let parts =
      collect_batch-parts j.client.sync_raw j.client.batch_size j.session_id j.project_path cursor
        j.db batch e in
    let r = leaving_from j.client batch m h in
    let read = ((filter_projects-messages j.client.project_filter batch r.0).0 r.1).0 in
    let above =
      read_messages-above j.client.sync_raw j.client.batch_size j.session_id cursor j.db r.0
        (subst (Has r.0) parts.0 read) in
    let s = message_allowed j.client.project_filter batch r.0 r.1 in
    record {
      above = omega (arith, above, r.2);
      allowed =
          (s.0, the_session j.session_id j.db s.0 (subst (Has s.0) parts.1 s.1), s.2 ∙ r.3, s.3);
      clean = leaving_clean j.client batch m h;
    }
