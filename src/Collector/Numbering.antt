-- ===== src/Collector/Numbering.antt =====
-- The sequences of a session stay distinct, whatever is collected (src/collector.rs).
use ai_cli_session_db.Prelude.{
  ℕ, suc, ◌<◌, ◌≤◌, max, String, List, [], ◌∷◌, ◌++◌, none, some, Bool, false, ◌≡◌, refl, sym, ap,
  ◌∙◌, inl, inr, All, map, is_empty, str_eq_refl, if◌then◌else◌, Bool-cases, Option-cases, arith,
  subst,
}
use ai_cli_session_db.Prelude.Sorting.{sort_by, insert, Increasing}
use ai_cli_session_db.Db.{SessionDb, Message}
use ai_cli_session_db.Db.Messages.{
  MessageInput, in_session, message_row, insert_message, insert_loop, refresh_count,
  insert_messages, max_of, get_session_max_sequence, get_session_latest_timestamp,
}
use ai_cli_session_db.Db.Messages.Insert.{skips}
use ai_cli_session_db.Sync.Client.Chunks.{seq, ordered}
use ai_cli_session_db.Collector.{
  ParsedMessage, number_messages, message_input, start_sequence, collect_session, collect_path,
  too_old,
}

abbrev Below : ℕ → List Message → Type 0
Below k ms = All (λ m. seq m < k) ms

Below-insert :
    (k : ℕ) (m : Message) (ms : List Message) → seq m < k → Below k ms → Below k (insert seq m ms)
Below-insert k m [] h b = (h, tt)
Below-insert k m (x ∷ xs) h b = ground (arith, h, b.0, b.1, Below-insert k m xs h b.1)

Below-sort_by : (k : ℕ) (ms : List Message) → Below k ms → Below k (sort_by seq ms)
Below-sort_by k [] b = tt
Below-sort_by k (m ∷ ms) b = Below-insert k m (sort_by seq ms) b.0 (Below-sort_by k ms b.1)

Below-append :
    (k : ℕ) (ms : List Message) (m : Message) → Below k ms → seq m < k → Below k (ms ++ m ∷ [])
Below-append k [] m b h = (h, tt)
Below-append k (x ∷ xs) m b h = (b.0, Below-append k xs m b.1 h)

Below-mono : (j k : ℕ) (ms : List Message) → j ≤ k → Below j ms → Below k ms
Below-mono j k [] h b = tt
Below-mono j k (x ∷ xs) h b = (omega (arith, h, b.0), Below-mono j k xs h b.1)

insert-snoc :
    (m y : Message) (ms : List Message)
    → seq m < seq y
    → insert seq m (ms ++ y ∷ []) ≡ insert seq m ms ++ y ∷ []
insert-snoc m y [] h = ground (arith, h)
insert-snoc m y (x ∷ xs) h = ground (arith, insert-snoc m y xs h)

-- A row above all the others is the last in order.
sort_by-snoc :
    (y : Message) (ms : List Message)
    → Below (seq y) ms
    → sort_by seq (ms ++ y ∷ []) ≡ sort_by seq ms ++ y ∷ []
sort_by-snoc y [] b = refl
sort_by-snoc y (m ∷ ms) b =
    ap (insert seq m) (sort_by-snoc y ms b.1) ∙ insert-snoc m y (sort_by seq ms) b.0

Increasing-snoc :
    (y : Message) (ms : List Message)
    → Below (seq y) ms
    → Increasing seq ms
    → Increasing seq (ms ++ y ∷ [])
Increasing-snoc y [] b h = (tt, tt)
Increasing-snoc y (m ∷ ms) b h = (above ms h.0 b.0, Increasing-snoc y ms b.1 h.1)
  where
    above :
        (xs : List Message)
        → All (λ x. seq m < seq x) xs
        → seq m < seq y
        → All (λ x. seq m < seq x) (xs ++ y ∷ [])
    above [] a lt = (lt, tt)
    above (x ∷ xs) a lt = (a.0, above xs a.1 lt)

-- The sequences of a session are distinct and below the next one.
record Numbered (id : String) (next : ℕ) (db : SessionDb) : Type 0 where
  increasing : Increasing seq (ordered id db)
  below : Below next (in_session id db.messages)

-- Messages whose sequences rise from a number on.
Rising : ℕ → List MessageInput → Type 0
Rising k [] = Unit
Rising k (m ∷ ms) = (k ≤ m.sequence) × Rising (suc m.sequence) ms

Rising-mono : (j k : ℕ) (ms : List MessageInput) → j ≤ k → Rising k ms → Rising j ms
unfolding Rising
Rising-mono j k [] h r = tt
Rising-mono j k (m ∷ ms) h r = (omega (arith, h, r.0), r.1)

number_messages-Rising :
    (now : ℕ) (drops : ℕ → Bool) (k : ℕ) (ms : List ParsedMessage)
    → Rising k (number_messages now drops k ms)
unfolding Rising number_messages message_input
number_messages-Rising now drops k [] = tt
number_messages-Rising now drops k (m ∷ ms) =
    let rest = number_messages-Rising now drops (suc k) ms in
    elim (Bool-cases (drops (elim m.timestamp [ none ↦ now | some t ↦ t ]))) [
      | inl e ↦
          rw e (Rising-mono k (suc k) (number_messages now drops (suc k) ms) (omega arith) rest)
      | inr e ↦ rw e (omega arith, rest)
    ]

in_session-snoc :
    (id : String) (ms : List Message) (m : Message)
    → m.session_id ≡ id
    → in_session id (ms ++ m ∷ []) ≡ in_session id ms ++ m ∷ []
in_session-snoc id [] m e = rw e (rw (str_eq_refl id) refl)
in_session-snoc id (x ∷ xs) m e = ground (arith, in_session-snoc id xs m e)

insert_message-Numbered :
    (id : String) (k : ℕ) (db : SessionDb) (msg : MessageInput)
    → Numbered id k db
    → k ≤ msg.sequence
    → Numbered id (suc msg.sequence) (insert_message id db msg).0
unfolding insert_message message_row
insert_message-Numbered id k db msg n h = elim (Bool-cases (skips id db msg)) [
  | inl old ↦ rw old (record {
    increasing = n.increasing;
    below = Below-mono k (suc msg.sequence) (in_session id db.messages) (omega (arith, h)) n.below;
  })
  | inr new ↦
      let row = message_row (suc db.last_message_id) id msg in
      let old = in_session id db.messages in
      let under = Below-mono k msg.sequence old h n.below in
      let rows = in_session-snoc id db.messages row refl in
      let order = ap (sort_by seq) rows ∙ sort_by-snoc row old under in
      rw new (record {
        increasing = subst (Increasing seq) (sym order) (
            Increasing-snoc row (sort_by seq old) (Below-sort_by msg.sequence old under)
              n.increasing);
        below = subst (Below (suc msg.sequence)) (sym rows) (
            Below-append (suc msg.sequence) old row
              (Below-mono k (suc msg.sequence) old (omega (arith, h)) n.below) (omega arith));
      })
]

insert_loop-Increasing :
    (id : String) (k : ℕ) (db : SessionDb) (msgs : List MessageInput)
    → Numbered id k db
    → Rising k msgs
    → Increasing seq (ordered id (insert_loop id db msgs).0)
unfolding insert_loop Rising
insert_loop-Increasing id k db [] n r = n.increasing
insert_loop-Increasing id k db (msg ∷ msgs) n r =
    insert_loop-Increasing id (suc msg.sequence) (insert_message id db msg).0 msgs
      (insert_message-Numbered id k db msg n r.0) r.1

abbrev next_of : List ℕ → ℕ
next_of ns = elim (max_of ns) [ none ↦ 0 | some n ↦ suc n ]

next_of-cons : (n : ℕ) (ns : List ℕ) → next_of (n ∷ ns) ≡ max (suc n) (next_of ns)
unfolding max_of
next_of-cons n ns = elim (Option-cases (max_of ns)) [
  | inl e ↦ ground (arith, e)
  | inr (m, e) ↦ ground (arith, e)
]

Below-next_of : (ms : List Message) → Below (next_of (map seq ms)) ms
Below-next_of [] = tt
Below-next_of (m ∷ ms) =
    let next = next_of-cons (seq m) (map seq ms) in
    (
      omega (arith, next),
      Below-mono (next_of (map seq ms)) (next_of (map seq (m ∷ ms))) ms (omega (arith, next))
          (Below-next_of ms),
    )

stored-Increasing :
    (id : String) (now : ℕ) (drops : ℕ → Bool) (parsed : List ParsedMessage) (db : SessionDb)
    → Increasing seq (ordered id db)
    → let messages = number_messages now drops (start_sequence id db) parsed in
      Increasing seq (
        ordered id
          (if is_empty messages then (db, 0, []) else insert_messages id messages now db).0)
unfolding insert_messages refresh_count start_sequence get_session_max_sequence
stored-Increasing id now drops parsed db inc =
    let messages = number_messages now drops (start_sequence id db) parsed in
    let rising = number_messages-Rising now drops (start_sequence id db) parsed in
    let numbered : Numbered id (start_sequence id db) db = record {
      increasing = inc;
      below = Below-next_of (in_session id db.messages);
    } in
    elim (Bool-cases (is_empty messages)) [
      | inl e ↦ rw e inc
      | inr e ↦ rw e (insert_loop-Increasing id (start_sequence id db) db messages numbered rising)
    ]

-- Collecting a session, with the cutoff or without, keeps the sequences of its messages distinct,
-- whatever the file holds, whatever is stored already and whichever messages are dropped.
pub collect_session-Increasing :
    (id : String) (now : ℕ) (parsed : List ParsedMessage) (db : SessionDb)
    → Increasing seq (ordered id db)
    → Increasing seq (ordered id (collect_session id now parsed db).0)
      × Increasing seq (ordered id (collect_path id now parsed db).0)
unfolding collect_session collect_path
collect_session-Increasing id now parsed db inc = (
  stored-Increasing id now (too_old (get_session_latest_timestamp id db)) parsed db inc,
  stored-Increasing id now (λ timestamp. false) parsed db inc,
)
