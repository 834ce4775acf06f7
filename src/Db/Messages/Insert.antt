-- ===== src/Db/Messages/Insert.antt =====
-- insert_messages (src/db.rs): what is stored, what is counted, and what a second call does.
use ai_cli_session_db.Prelude.{
  ℕ, suc, ◌+◌, String, List, [], ◌∷◌, ◌++◌, none, some, Bool, true, false, not, ◌&&◌, ◌||◌, ◌≡◌,
  refl, ◌∙◌, ap, ◌⊎◌, inl, inr, length, length-append, map, Has, str_eq, str_eq_iff, str_eq_refl,
  if◌then◌else◌, Bool-cases, arith, All, subst, ◌≢◌,
}
use ai_cli_session_db.Db.{SessionDb, Session, Message}
use ai_cli_session_db.Db.Messages.{
  MessageInput, has_uuid, has_session, message_row, insert_message, insert_loop, refresh_count,
  insert_messages, in_session, get_session_message_count,
}

-- No two rows share a uuid.
abbrev pub UniqueUuids : List Message → Type 0
UniqueUuids [] = Unit
UniqueUuids (m ∷ ms) = (has_uuid m.uuid ms ≡ false) × UniqueUuids ms

has_uuid-append :
    (u : String) (xs ys : List Message) → has_uuid u (xs ++ ys) ≡ (has_uuid u xs || has_uuid u ys)
has_uuid-append u [] ys = refl
has_uuid-append u (x ∷ xs) ys = ground (arith, has_uuid-append u xs ys)

UniqueUuids-snoc :
    (xs : List Message) (m : Message)
    → UniqueUuids xs
    → has_uuid m.uuid xs ≡ false
    → UniqueUuids (xs ++ m ∷ [])
UniqueUuids-snoc [] m u fresh = (refl, tt)
UniqueUuids-snoc (x ∷ xs) m u fresh = (
  ground (
    arith,
    has_uuid-append x.uuid xs (m ∷ []),
    str_eq_iff m.uuid x.uuid,
    str_eq_iff x.uuid m.uuid,
  ),
  UniqueUuids-snoc xs m u.1 (ground arith),
)

insert_message-UniqueUuids :
    (id : String) (db : SessionDb) (msg : MessageInput)
    → UniqueUuids db.messages
    → UniqueUuids (insert_message id db msg).0.messages
unfolding insert_message message_row
insert_message-UniqueUuids id db msg u = elim (Bool-cases (has_uuid msg.uuid db.messages)) [
  | inl old ↦ rw old u
  | inr new ↦
      ground
        (arith, UniqueUuids-snoc db.messages (message_row (suc db.last_message_id) id msg) u new)
]

insert_loop-UniqueUuids :
    (id : String) (db : SessionDb) (msgs : List MessageInput)
    → UniqueUuids db.messages
    → UniqueUuids (insert_loop id db msgs).0.messages
unfolding insert_loop
insert_loop-UniqueUuids id db [] u = u
insert_loop-UniqueUuids id db (msg ∷ msgs) u = ground (
  arith,
  insert_loop-UniqueUuids id (insert_message id db msg).0 msgs
      (insert_message-UniqueUuids id db msg u),
)

-- Every call keeps the uuids of the table distinct.
pub insert_messages-UniqueUuids :
    (id : String) (msgs : List MessageInput) (now : ℕ) (db : SessionDb)
    → UniqueUuids db.messages
    → UniqueUuids (insert_messages id msgs now db).0.messages
unfolding insert_messages refresh_count
insert_messages-UniqueUuids id msgs now db u = insert_loop-UniqueUuids id db msgs u

-- Whether an insertion is dropped.
abbrev pub skips : String → SessionDb → MessageInput → Bool
skips id db msg =
    has_uuid msg.uuid db.messages || (db.foreign_keys && not (has_session id db.sessions))

skips_after :
    (id : String) (db : SessionDb) (msg : MessageInput)
    → skips id (insert_message id db msg).0 msg ≡ true
unfolding insert_message message_row
skips_after id db msg = elim (Bool-cases (skips id db msg)) [
  | inl old ↦ rw old old
  | inr new ↦ rw new (
      ground (
        arith,
        has_uuid-append msg.uuid db.messages (message_row (suc db.last_message_id) id msg ∷ []),
        str_eq_refl msg.uuid,
      ))
]

skips_later :
    (id : String) (db : SessionDb) (msg x : MessageInput)
    → skips id db x ≡ true
    → skips id (insert_message id db msg).0 x ≡ true
unfolding insert_message message_row
skips_later id db msg x e = elim (Bool-cases (skips id db msg)) [
  | inl old ↦ rw old e
  | inr new ↦ rw new (
      ground (
        arith,
        has_uuid-append x.uuid db.messages (message_row (suc db.last_message_id) id msg ∷ []),
      ))
]

loop_skips :
    (id : String) (db : SessionDb) (msgs : List MessageInput) (x : MessageInput)
    → skips id db x ≡ true
    → skips id (insert_loop id db msgs).0 x ≡ true
unfolding insert_loop
loop_skips id db [] x e = e
loop_skips id db (msg ∷ msgs) x e =
    ground (arith, loop_skips id (insert_message id db msg).0 msgs x (skips_later id db msg x e))

loop_stored :
    (id : String) (db : SessionDb) (msgs : List MessageInput)
    → All (λ x. skips id (insert_loop id db msgs).0 x ≡ true) msgs
unfolding insert_loop
loop_stored id db [] = tt
loop_stored id db (msg ∷ msgs) =
    let db' = (insert_message id db msg).0 in
    (loop_skips id db' msgs msg (skips_after id db msg), loop_stored id db' msgs)

insert_message_skip :
    (id : String) (db : SessionDb) (msg : MessageInput)
    → skips id db msg ≡ true
    → insert_message id db msg ≡ (db, none)
unfolding insert_message
insert_message_skip id db msg e = rw e

loop_skip-All :
    (id : String) (db : SessionDb) (msgs : List MessageInput)
    → All (λ x. skips id db x ≡ true) msgs
    → insert_loop id db msgs ≡ (db, 0, [])
unfolding insert_loop
loop_skip-All id db [] h = refl
loop_skip-All id db (msg ∷ msgs) h =
    ground (arith, insert_message_skip id db msg h.0, loop_skip-All id db msgs h.1)

-- The closing update renames no session.
has_session-refresh :
    (id j : String) (now : ℕ) (n : ℕ) (rows : List Session)
    → has_session j (
        map
          (λ s.
            if str_eq s.session_id id then record s { message_count = n; updated_at = now } else s)
          rows)
      ≡ has_session j rows
has_session-refresh id j now n [] = refl
has_session-refresh id j now n (s ∷ rows) = ground (arith, has_session-refresh id j now n rows)

skips-refresh :
    (id : String) (now : ℕ) (db : SessionDb) (x : MessageInput)
    → skips id (refresh_count id now db) x ≡ skips id db x
unfolding refresh_count
skips-refresh id now db x =
    rw (has_session-refresh id id now (length (in_session id db.messages)) db.sessions)

All-refresh :
    (id : String) (now : ℕ) (db : SessionDb) (xs : List MessageInput)
    → All (λ x. skips id db x ≡ true) xs
    → All (λ x. skips id (refresh_count id now db) x ≡ true) xs
All-refresh id now db [] h = tt
All-refresh id now db (x ∷ xs) h = (skips-refresh id now db x ∙ h.0, All-refresh id now db xs h.1)

-- Writing the same messages again stores nothing and reports nothing new.
pub insert_messages_twice :
    (id : String) (msgs : List MessageInput) (now later : ℕ) (db : SessionDb)
    → let once = (insert_messages id msgs now db).0 in
      let (twice, inserted, new_ids) = insert_messages id msgs later once in
      (twice.messages ≡ once.messages) × (inserted ≡ 0) × (new_ids ≡ [])
unfolding insert_messages refresh_count
insert_messages_twice id msgs now later db =
    let done = (insert_loop id db msgs).0 in
    let again =
      loop_skip-All id (refresh_count id now done) msgs
        (All-refresh id now done msgs (loop_stored id db msgs)) in
    (ap (λ r. r.0.messages) again, ap (λ r. r.1) again, ap (λ r. r.2) again)

insert_message-length :
    (id : String) (db : SessionDb) (msg : MessageInput)
    → length (insert_message id db msg).0.messages
      ≡ length db.messages + elim (insert_message id db msg).1 [ none ↦ 0 | some r ↦ 1 ]
unfolding insert_message
insert_message-length id db msg = elim (Bool-cases (skips id db msg)) [
  | inl old ↦ rw old (omega arith)
  | inr new ↦
      rw new (
        omega (arith, length-append db.messages (message_row (suc db.last_message_id) id msg ∷ [])))
]

insert_loop-length :
    (id : String) (db : SessionDb) (msgs : List MessageInput)
    → let (done, inserted, new_ids) = insert_loop id db msgs in
      (length done.messages ≡ length db.messages + inserted) × (length new_ids ≡ inserted)
unfolding insert_loop
insert_loop-length id db [] = (omega arith, refl)
insert_loop-length id db (msg ∷ msgs) = ground (
  arith,
  insert_message-length id db msg,
  insert_loop-length id (insert_message id db msg).0 msgs,
)

-- The table grows by exactly the number that is returned, which is that of the returned rowids.
pub insert_messages-length :
    (id : String) (msgs : List MessageInput) (now : ℕ) (db : SessionDb)
    → let (done, inserted, new_ids) = insert_messages id msgs now db in
      (length done.messages ≡ length db.messages + inserted) × (length new_ids ≡ inserted)
unfolding insert_messages refresh_count
insert_messages-length id msgs now db = insert_loop-length id db msgs

pub insert_loop-sessions :
    (id : String) (db : SessionDb) (msgs : List MessageInput)
    → (insert_loop id db msgs).0.sessions ≡ db.sessions
unfolding insert_loop
insert_loop-sessions id db [] = refl
insert_loop-sessions id db (msg ∷ msgs) =
    insert_loop-sessions id (insert_message id db msg).0 msgs ∙ keeps
  where
    keeps : (insert_message id db msg).0.sessions ≡ db.sessions
    keeps = unfold insert_message in ground arith

-- What a call leaves of a session row: the count of the session's messages, or the old row.
abbrev Refreshed : String → ℕ → List Session → Session → Type 0
Refreshed id n rows s =
    ((s.session_id ≡ id) × (s.message_count ≡ n)) ⊎ (Has s rows × (s.session_id ≢ id))

Refreshed-map :
    (id : String) (now n : ℕ) (rows : List Session) (s : Session)
    → Has s (
        map
          (λ r.
            if str_eq r.session_id id then record r { message_count = n; updated_at = now } else r)
          rows)
    → Refreshed id n rows s
Refreshed-map id now n [] s m = absurd m
Refreshed-map id now n (r ∷ rows) s (inl e) = elim (Bool-cases (str_eq r.session_id id)) [
  | inl hit ↦
      let e' = rw hit at e in
      inl (
        ap (λ t. t.session_id) e' ∙ (str_eq_iff r.session_id id).0 hit,
        ap (λ t. t.message_count) e',
      )
  | inr miss ↦
      let e' = rw miss at e in inr (inl e', λ q. ground (arith, str_eq_iff r.session_id id))
]
Refreshed-map id now n (r ∷ rows) s (inr m) = elim (Refreshed-map id now n rows s m) [
  | inl h ↦ inl h
  | inr h ↦ inr (inr h.0, h.1)
]

-- Afterwards every row of the session counts the session's messages, and every other row is an old
-- one of another session.
pub insert_messages-counted :
    (id : String) (msgs : List MessageInput) (now : ℕ) (db : SessionDb) (s : Session)
    → let done = (insert_messages id msgs now db).0 in
      Has s done.sessions
      → ((s.session_id ≡ id) × (s.message_count ≡ get_session_message_count id done))
        ⊎ (Has s db.sessions × (s.session_id ≢ id))
unfolding insert_messages refresh_count get_session_message_count
insert_messages-counted id msgs now db s m =
    let done = (insert_loop id db msgs).0 in
    subst (λ rows. Refreshed id (length (in_session id done.messages)) rows s)
      (insert_loop-sessions id db msgs)
      (Refreshed-map id now (length (in_session id done.messages)) done.sessions s m)
