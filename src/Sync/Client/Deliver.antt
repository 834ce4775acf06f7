-- ===== src/Sync/Client/Deliver.antt =====
-- One iteration of sync_session (src/sync/client.rs) where nothing stands in its way.
use mathlib.Core.List.{append-nil, append_assoc}
use ai_cli_session_db.Prelude.{
  ℕ, zero, suc, String, List, [], ◌∷◌, ◌++◌, none, some, true, false, map, length, is_empty, take,
  drop, ◌≡◌, refl, sym, ap, ◌∙◌, inl, inr, Has, Has-retain, subst, ltb, Option-cases, Bool-cases,
  if◌then◌else◌, str_eq, str_eq_iff, str_eq_refl,
}
use ai_cli_session_db.Prelude.Sorting.{left_of, Increasing}
use ai_cli_session_db.Db.{Message}
use ai_cli_session_db.Sync.Batch.{
  SyncBatch, SyncMessage, SyncProject, SyncSession, SyncContinuationChain, SyncChainNode,
  SyncPushResponse,
}
use ai_cli_session_db.Sync.Collect.{
  collect_batch, sync_message, read_messages, read_project, read_session, read_chains,
  read_relations, read_talks, to_list,
}
use ai_cli_session_db.Sync.Cursors.{
  SyncDb, get_cursor, get_or_init_device_id, get_cursor-update_cursor, get_state,
}
use ai_cli_session_db.Sync.Filter.{is_allowed, filter_projects}
use ai_cli_session_db.Sync.Filter.Projects.{filter_projects-messages_all, filter_projects-sessions}
use ai_cli_session_db.Sync.Client.Chunks.{
  seq, ordered, read_messages_lem, read_messages-row, left_of-max_sequence,
}
use ai_cli_session_db.Sync.Client.{
  SyncClient, SyncPushRequest, Job, Run, Progress, broke, again, filter_batch, pass_words,
  collect_and_filter_batch, max_sequence, effective_api_key, push_batch, push_step, batch_cursors,
}

-- The messages of the requests, in the order in which they went out.
abbrev pub sent_messages : List SyncPushRequest → List SyncMessage
sent_messages [] = []
sent_messages (r ∷ rs) = r.batch.messages ++ sent_messages rs

-- Nothing stands in the way of a run: the session and its project are there and allowed, no words
-- are filtered, a key is configured, the server answers, and the sequences are distinct.
pub record IsClear (j : Job) : Type 0 where
  pub no_words : j.client.word_filter ≡ none
  pub keyed : str_eq j.client.api_key "" ≡ false
  pub answers :
      (sent : List SyncPushRequest) (r : SyncPushRequest)
      → (a : SyncPushResponse) × (j.server sent r ≡ some a)
  pub project : SyncProject
  pub project_read : read_project j.project_path j.db ≡ some project
  pub project_allowed : is_allowed j.client.project_filter project.path ≡ true
  pub session : SyncSession
  pub session_read : read_session j.session_id j.db ≡ some session
  pub session_id : session.session_id ≡ j.session_id
  pub session_path : project.path ≡ session.project_path
  pub chains : List SyncContinuationChain × List SyncChainNode
  pub chains_read : read_chains j.session_id j.db ≡ some chains
  pub distinct : Increasing seq (ordered j.session_id j.db)

module _ (j : Job) (k : IsClear j) where
  -- The read at a cursor.
  read_at :
      (after : ℕ)
      → (b : SyncBatch) × (collect_batch j.client.sync_raw j.client.batch_size j.session_id
            j.project_path after j.db
          ≡ some b)
        × (b.messages ≡ read_messages j.client.sync_raw j.client.batch_size j.session_id after j.db)
        × (b.projects ≡ k.project ∷ [])
        × (b.sessions ≡ k.session ∷ [])
  unfolding collect_batch
  read_at after = (
    record {
      projects = to_list (read_project j.project_path j.db);
      sessions = to_list (read_session j.session_id j.db);
      messages = read_messages j.client.sync_raw j.client.batch_size j.session_id after j.db;
      session_relations = read_relations j.session_id j.db;
      continuation_chains = k.chains.0;
      chain_nodes = k.chains.1;
      talks = read_talks j.session_id j.db;
    },
    rw (k.chains_read, collect_batch) refl,
    refl,
    rw k.project_read refl,
    rw k.session_read refl,
  )

  row_session :
      (after : ℕ) (m : SyncMessage)
      → Has m (read_messages j.client.sync_raw j.client.batch_size j.session_id after j.db)
      → m.session_id ≡ j.session_id
  unfolding sync_message
  row_session after m h =
      let (r, member, _, same) =
        read_messages-row j.client.sync_raw j.client.batch_size j.session_id after j.db m h in
      let kept =
        Has-retain (λ (t : Message). str_eq t.session_id j.session_id) r j.db.messages member in
      ap (λ t. t.session_id) same ∙ (str_eq_iff r.session_id j.session_id).0 kept.1

  -- The filters let all of it through.
  passes :
      (after : ℕ)
      → (filter_batch j.client (read_at after).0).messages
        ≡ read_messages j.client.sync_raw j.client.batch_size j.session_id after j.db
  passes after =
      let (b, _, ms, ps, ss) = read_at after in
      let f = j.client.project_filter in
      let open_session = (filter_projects-sessions f b k.session).1 (
        subst (Has k.session) (sym ss) (inl refl),
        (k.project, subst (Has k.project) (sym ps) (inl refl), k.project_allowed, k.session_path),
      ) in
      let all =
        filter_projects-messages_all f b j.session_id (k.session, open_session, k.session_id)
          λ m h. row_session after m (subst (Has m) ms h) in
      ap (λ o. (pass_words o (filter_projects f b)).messages) k.no_words ∙ all ∙ ms

  -- The messages left above a cursor.
  abbrev pub left : ℕ → List Message
  left after = left_of seq after (ordered j.session_id j.db)

  -- What the loop gets of the read at a cursor, where messages are left.
  pub read_some :
      (after n : ℕ) (x : Message) (rest : List Message)
      → j.client.batch_size ≡ suc n
      → left after ≡ x ∷ rest
      → (b : SyncBatch) × (top : ℕ) × (collect_and_filter_batch j.client j.db j.session_id
            j.project_path after
          ≡ some (some (b, top, length b.messages)))
        × (b.messages
            ≡ map (sync_message j.client.sync_raw) (take j.client.batch_size (left after)))
        × (left top ≡ drop j.client.batch_size (left after))
  unfolding collect_and_filter_batch
  read_some after n x rest size shape =
      let (b, read, ms, _, _) = read_at after in
      let raw = j.client.sync_raw in
      let all = ordered j.session_id j.db in
      let rows = ms ∙ read_messages_lem raw j.client.batch_size j.session_id after j.db in
      let nonempty : is_empty b.messages ≡ false = rw (rows, size, shape) refl in
      let top = max_sequence after b.messages in
      let behind : left top ≡ drop j.client.batch_size (left after) =
        rw (rows, size) (left_of-max_sequence raw n after all x rest shape k.distinct) in
      (
        filter_batch j.client b,
        top,
        rw (read, collect_and_filter_batch) (rw nonempty refl),
        passes after ∙ read_messages_lem raw j.client.batch_size j.session_id after j.db,
        behind,
      )

  -- Where no message is left, the read is empty and the loop returns.
  pub read_none :
      (after : ℕ)
      → left after ≡ []
      → collect_and_filter_batch j.client j.db j.session_id j.project_path after ≡ some none
  unfolding collect_and_filter_batch
  read_none after shape =
      let (b, read, ms, _, _) = read_at after in
      let rows =
        ms ∙ read_messages_lem j.client.sync_raw j.client.batch_size j.session_id after j.db in
      let nothing : is_empty b.messages ≡ true =
        rw (rows, shape) (empty_take j.client.batch_size) in
      rw (read, collect_and_filter_batch) (rw nothing refl)
    where
      empty_take : (n : ℕ) → is_empty (map (sync_message j.client.sync_raw) (take n [])) ≡ true
      empty_take zero = refl
      empty_take (suc n) = refl

-- A configured key is never missing, whatever the stored one is.
key_there :
    (c : SyncClient) (sync : SyncDb)
    → str_eq c.api_key "" ≡ false
    → (key : String) × (effective_api_key c sync ≡ some key)
unfolding effective_api_key
key_there c sync e = elim (Option-cases (get_state "api_key" sync)) [
  | inl f ↦ (c.api_key, rw (f, effective_api_key) (rw e refl))
  | inr (key, f) ↦ elim (Bool-cases (str_eq key "")) [
    | inl t ↦ (c.api_key, rw (f, effective_api_key) (rw (t, e) refl))
    | inr t ↦ (key, rw (f, effective_api_key) (rw t refl))
  ]
]

sent_messages-append :
    (rs : List SyncPushRequest) (r : SyncPushRequest)
    → sent_messages (rs ++ r ∷ []) ≡ sent_messages rs ++ r.batch.messages
sent_messages-append [] r = append-nil r.batch.messages
sent_messages-append (q ∷ rs) r =
    ap (λ ms. q.batch.messages ++ ms) (sent_messages-append rs r)
    ∙ sym (append_assoc q.batch.messages (sent_messages rs) r.batch.messages)

module _ (j : Job) (k : IsClear j) where
  -- A push under a key, to a server that answers.
  push_batch-clear :
      (b : SyncBatch) (run : Run)
      → (r : SyncPushRequest) × (a : SyncPushResponse) × ((push_batch j.client j.fresh j.server b
            run).0.sent
          ≡ run.sent ++ r ∷ [])
        × ((push_batch j.client j.fresh j.server b run).1 ≡ some a)
        × (r.batch ≡ b)
  unfolding push_batch
  push_batch-clear b run =
      let (sync, device_id) = get_or_init_device_id j.fresh run.sync_db in
      let (key, e) = key_there j.client sync k.keyed in
      let request : SyncPushRequest = record {
        bearer = key;
        device_id = device_id;
        encryption = j.client.encryption;
        batch = b;
        cursors = batch_cursors [] b.messages;
      } in
      let (a, f) = k.answers run.sent request in
      (request, a, rw (e, push_batch) refl, rw (e, push_batch) f, refl)

  -- A push that is answered: the batch is in the requests, the cursor stands where it was told to.
  pub push_clear :
      (b : SyncBatch) (top len : ℕ) (p : Progress)
      → let (q, next) = push_step j b top len p in
        (sent_messages q.run.sent ≡ sent_messages p.run.sent ++ b.messages)
        × (q.current_cursor ≡ top)
        × ((get_cursor j.session_id q.run.sync_db).0 ≡ top)
        × (next ≡ (if ltb len j.client.batch_size then broke else again))
  unfolding push_step
  push_clear b top len p =
      let (r, a, sent, answer, same) = push_batch-clear b p.run in
      let sync = (push_batch j.client j.fresh j.server b p.run).0.sync_db in
      rw (answer, push_step)
        (
          ap sent_messages sent
              ∙ sent_messages-append p.run.sent r
              ∙ ap (λ (x : SyncBatch). sent_messages p.run.sent ++ x.messages) same,
          refl,
          ap (λ x. x.0) (get_cursor-update_cursor j.session_id j.session_id top j.now sync)
              ∙ rw (str_eq_refl j.session_id) refl,
          refl,
        )
