-- ===== src/Collector/First.antt =====
-- The first message of a new session, from the collector (src/collector.rs) to the push
-- (src/sync/client.rs).
use ai_cli_session_db.Prelude.{
  All, length, ℕ, suc, ◌<◌, String, List, [], ◌∷◌, ◌++◌, Option, none, some, true, false, ◌≡◌, ◌≢◌,
  refl, sym, ap, ◌∙◌, inl, inr, Has, Has-retain_of, map, leb, str_eq, str_eq_refl, if◌then◌else◌,
  Bool-cases, arith, subst,
}
use ai_cli_session_db.Db.{SessionDb, Message}
use ai_cli_session_db.Db.Messages.{
  MessageInput, in_session, has_uuid, has_session, message_row, insert_message, insert_loop,
  refresh_count, insert_messages, max_of, get_session_max_sequence, get_session_latest_timestamp,
}
use ai_cli_session_db.Db.Messages.Insert.{skips}
use ai_cli_session_db.Sync.Cursors.{SyncDb}
use ai_cli_session_db.Sync.Client.{Job, Run, BatchStats, sync_session}
use ai_cli_session_db.Sync.Client.Total.{sync_session-total}
use ai_cli_session_db.Sync.Client.Safe.{sync_session-safe}
use ai_cli_session_db.Collector.{
  ParsedMessage, number_messages, message_input, start_sequence, collect_session, too_old, time_of,
}

Has-snoc : {A : Type 0} (x y : A) (xs : List A) → Has x xs → Has x (xs ++ y ∷ [])
Has-snoc x y [] m = absurd m
Has-snoc x y (z ∷ zs) (inl e) = inl e
Has-snoc x y (z ∷ zs) (inr m) = inr (Has-snoc x y zs m)

Has-last : {A : Type 0} (x : A) (xs : List A) → Has x (xs ++ x ∷ [])
Has-last x [] = inl refl
Has-last x (z ∷ zs) = inr (Has-last x zs)

All-of_Has : {A : Type 0} (P : A → Type 0) (xs : List A) → ((x : A) → Has x xs → P x) → All P xs
All-of_Has P [] f = tt
All-of_Has P (x ∷ xs) f = (f x (inl refl), All-of_Has P xs λ y m. f y (inr m))

-- Inserting takes no row away.
Has-insert_loop :
    (id : String) (db : SessionDb) (msgs : List MessageInput) (row : Message)
    → Has row db.messages
    → Has row (insert_loop id db msgs).0.messages
unfolding insert_loop insert_message
Has-insert_loop id db [] row h = h
Has-insert_loop id db (msg ∷ msgs) row h =
    Has-insert_loop id (insert_message id db msg).0 msgs row (elim (Bool-cases (skips id db msg)) [
      | inl old ↦ rw old h
      | inr new ↦ rw new (Has-snoc row (message_row (suc db.last_message_id) id msg) db.messages h)
    ])

no_latest :
    (id : String) (db : SessionDb)
    → in_session id db.messages ≡ []
    → get_session_latest_timestamp id db ≡ none
unfolding get_session_latest_timestamp max_of
no_latest id db e = ap (λ rows. max_of (map (λ (m : Message). m.timestamp) rows)) e

no_start :
    (id : String) (db : SessionDb) → in_session id db.messages ≡ [] → start_sequence id db ≡ 0
unfolding start_sequence get_session_max_sequence max_of
no_start id db e =
    ap
      (λ rows. elim (max_of (map (λ (m : Message). m.sequence) rows)) [ none ↦ 0 | some n ↦ suc n ])
      e

-- In a session without rows a message with a time is the first, with the number 0.
first_input :
    (id : String) (now : ℕ) (m : ParsedMessage) (ms : List ParsedMessage) (db : SessionDb)
    → in_session id db.messages ≡ []
    → 0 < time_of now m
    → number_messages now
        (too_old (get_session_latest_timestamp id db))
        (start_sequence id db)
        (m ∷ ms)
      ≡ message_input now 0 m ∷ number_messages now (too_old none) 1 ms
first_input id now m ms db no_rows timed =
    ap (λ l. number_messages now (too_old l) (start_sequence id db) (m ∷ ms))
      (no_latest id db no_rows)
    ∙ ap (λ k. number_messages now (too_old none) k (m ∷ ms)) (no_start id db no_rows)
    ∙ unfold number_messages in kept
  where
    late : leb (time_of now m) 0 ≡ false
    late = ground (arith, timed)

    kept :
        (if leb (time_of now m) 0
          then number_messages now (too_old none) 1 ms
          else message_input now 0 m ∷ number_messages now (too_old none) 1 ms)
        ≡ message_input now 0 m ∷ number_messages now (too_old none) 1 ms
    kept = rw late refl

module _ (id : String) (now : ℕ) (m : ParsedMessage) (ms : List ParsedMessage)
    (db : SessionDb) where
  first_row :
      in_session id db.messages ≡ []
      → has_uuid m.uuid db.messages ≡ false
      → has_session id db.sessions ≡ true
      → 0 < time_of now m
      → (row : Message) × Has row (in_session id (collect_session id now (m ∷ ms) db).0.messages)
        × (row.uuid ≡ m.uuid)
        × (row.sequence ≡ 0)
  unfolding collect_session insert_messages refresh_count insert_loop insert_message message_row
      message_input
  first_row no_rows new_uuid stored timed =
      let inputs = first_input id now m ms db no_rows timed in
      let row = message_row (suc db.last_message_id) id (message_input now 0 m) in
      let rest = number_messages now (too_old none) 1 ms in
      let inserted : (insert_message id db (message_input now 0 m)).0.messages
          ≡ db.messages ++ row ∷ [] =
        ground (arith, new_uuid, stored) in
      let there =
        Has-insert_loop id (insert_message id db (message_input now 0 m)).0 rest row
          (subst (Has row) (sym inserted) (Has-last row db.messages)) in
      (
        row,
        rw inputs (
            Has-retain_of (λ (x : Message). str_eq x.session_id id) row
              (insert_loop id db (message_input now 0 m ∷ rest)).0.messages there (str_eq_refl id)),
        refl,
        refl,
      )

  -- The first message of a session that has no rows yet, where it is new and has a time, is stored
  -- with the sequence 0; and a run of the push over the database that holds it, given more fuel than
  -- the session has messages, returns, from any cursor and with any server and any filters, and no
  -- message of its requests has the sequence 0: the first message is not sent.
  pub collect_session-first :
      (fuel : ℕ) (j : Job) (sync : SyncDb)
      → in_session id db.messages ≡ []
      → has_uuid m.uuid db.messages ≡ false
      → has_session id db.sessions ≡ true
      → 0 < time_of now m
      → length (in_session id (collect_session id now (m ∷ ms) db).0.messages) < fuel
      → (row : Message) × Has row (in_session id (collect_session id now (m ∷ ms) db).0.messages)
        × (row.uuid ≡ m.uuid)
        × (row.sequence ≡ 0)
        × ((run : Run) × (stats : Option BatchStats) × (sync_session fuel
                (record j { db = (collect_session id now (m ∷ ms) db).0; session_id = id })
                (record { sync_db = sync; sent = [] })
              ≡ some (run, stats))
            × All (λ r. All (λ x. x.sequence ≢ 0) r.batch.messages) run.sent)
  collect_session-first fuel j sync no_rows new_uuid stored timed lt =
      let (row, here, uuid, zero_seq) = first_row no_rows new_uuid stored timed in
      let job : Job = record j { db = (collect_session id now (m ∷ ms) db).0; session_id = id } in
      let begin : Run = record { sync_db = sync; sent = [] } in
      let (run, stats, e) = sync_session-total fuel job begin lt in
      (
        row,
        here,
        uuid,
        zero_seq,
        (
          run,
          stats,
          e,
          All-of_Has (λ r. All (λ x. x.sequence ≢ 0) r.batch.messages) run.sent
              λ r h.
                All-of_Has (λ x. x.sequence ≢ 0) r.batch.messages
                  λ x k same.
                    let safe = sync_session-safe fuel job sync run stats e r x h k in
                    omega (arith, safe.above, same),
        ),
      )
