-- ===== src/Db/Index/Queue.antt =====
-- The queue of messages to index (src/db.rs): a batch that is marked leaves it, a reset fills it.
use ai_cli_session_db.Prelude.{
  ℕ, zero, suc, ◌+◌, ◌<◌, List, [], ◌∷◌, Bool, true, false, not, ◌&&◌, map, length, take, drop,
  retain, ◌≡◌, refl, sym, ap, ◌∙◌, ◌⊎◌, inl, inr, Has, All, retain_ext, retain_all, length-drop,
  subst, ◌-◌, Bool-cases, if◌then◌else◌, arith,
}
use ai_cli_session_db.Prelude.Sorting.{Increasing, insert}
use ai_cli_session_db.Db.{SessionDb, Message, VectorIndexed, unindexed, indexed, failed}
use ai_cli_session_db.Db.Index.{
  to_index, has_id, by_id, is_failed, is_assistant, get_unindexed_messages,
  count_unindexed_messages, set_indexed, update_indexed, mark_messages_indexed,
  count_failed_indexed_messages, reset_failed_indexed_messages,
}

abbrev row_id : Message → ℕ
row_id m = m.id

insert_first :
    (m : Message) (xs : List Message)
    → All (λ y. row_id m < row_id y) xs
    → insert row_id m xs ≡ m ∷ xs
insert_first m [] h = refl
insert_first m (x ∷ xs) h = ground arith

-- Rows in rowid order are in order already.
by_id_lem : (xs : List Message) → Increasing row_id xs → by_id xs ≡ xs
by_id_lem [] h = refl
by_id_lem (x ∷ xs) h = ap (insert row_id x) (by_id_lem xs h.1) ∙ insert_first x xs h.0

All-retain :
    (n : ℕ) (p : Message → Bool) (xs : List Message)
    → All (λ y. n < row_id y) xs
    → All (λ y. n < row_id y) (retain p xs)
All-retain n p [] h = tt
All-retain n p (x ∷ xs) h = ground (arith, All-retain n p xs h.1)

Increasing-retain :
    (p : Message → Bool) (xs : List Message)
    → Increasing row_id xs
    → Increasing row_id (retain p xs)
Increasing-retain p [] h = tt
Increasing-retain p (x ∷ xs) h =
    ground (arith, Increasing-retain p xs h.1, All-retain (row_id x) p xs h.0)

-- A row that was marked is not to be indexed, any other stays what it was.
set_indexed-to_index :
    (v : VectorIndexed) (p : Message → Bool) (xs : List Message)
    → ((m : Message) → to_index (record m { vector_indexed = v }) ≡ false)
    → retain to_index (map (set_indexed v p) xs) ≡ retain (λ m. not (p m)) (retain to_index xs)
set_indexed-to_index v p [] h = refl
set_indexed-to_index v p (x ∷ xs) h =
    let rest = set_indexed-to_index v p xs h in
    elim (Bool-cases (p x)) [
      | inl e ↦ rw (e, h x) (rest ∙ sym (dropped (to_index x) e))
      | inr e ↦ rw e (kept (to_index x) e rest)
    ]
  where
    others : List Message
    others = retain (λ m. not (p m)) (retain to_index xs)

    dropped :
        (b : Bool)
        → p x ≡ true
        → retain (λ m. not (p m)) (if b then x ∷ retain to_index xs else retain to_index xs)
          ≡ retain (λ m. not (p m)) (retain to_index xs)
    dropped true e = rw e refl
    dropped false e = refl

    kept :
        (b : Bool)
        → p x ≡ false
        → retain to_index (map (set_indexed v p) xs) ≡ retain (λ m. not (p m)) (retain to_index xs)
        → (if b
            then x ∷ retain to_index (map (set_indexed v p) xs)
            else retain to_index (map (set_indexed v p) xs))
          ≡ retain (λ m. not (p m)) (if b then x ∷ retain to_index xs else retain to_index xs)
    kept true e r = rw e (ap (◌∷◌ x) r)
    kept false e r = r

All-Has :
    (n : ℕ) (m : Message) (xs : List Message) → All (λ y. n < row_id y) xs → Has m xs → n < row_id m
All-Has n m [] h k = absurd k
All-Has n m (x ∷ xs) h (inl e) = omega (arith, h.0, ap row_id e)
All-Has n m (x ∷ xs) h (inr k) = All-Has n m xs h.1 k

-- Without its first rows a queue is the rest of it.
not_in_batch :
    (n : ℕ) (xs : List Message)
    → Increasing row_id xs
    → retain (λ m. not (has_id (map row_id (take n xs)) m)) xs ≡ drop n xs
not_in_batch zero xs h = retain_all (λ m. true) xs (λ m k. refl)
not_in_batch (suc n) [] h = refl
not_in_batch (suc n) (x ∷ xs) h =
    let same =
      retain_ext (λ m. not (has_id (map row_id (x ∷ take n xs)) m))
        (λ m. not (has_id (map row_id (take n xs)) m)) xs
        λ m k. ground (arith, All-Has (row_id x) m xs h.0 k) in
    ground (arith, same, not_in_batch n xs h.1)

set_none : (v : VectorIndexed) (xs : List Message) → map (set_indexed v (has_id [])) xs ≡ xs
set_none v [] = refl
set_none v (x ∷ xs) = ap (◌∷◌ x) (set_none v xs)

mark-messages :
    (ids : List ℕ) (db : SessionDb)
    → (mark_messages_indexed ids db).0.messages ≡ map (set_indexed indexed (has_id ids)) db.messages
unfolding mark_messages_indexed update_indexed
mark-messages [] db = sym (set_none indexed db.messages)
mark-messages (i ∷ ids) db = refl

-- Where the rows stand in the order of their ids, indexing a batch and marking it takes exactly that
-- batch off the front of the queue: what is read next is what was behind it, and the count goes
-- down by the size of the batch, or to 0.
pub mark_batch-queue :
    (n k : ℕ) (db : SessionDb)
    → Increasing (λ m. m.id) db.messages
    → let batch = get_unindexed_messages n db in
      let marked = (mark_messages_indexed (map (λ m. m.id) batch) db).0 in
      (get_unindexed_messages k marked ≡ take k (drop n (retain to_index db.messages)))
      × (count_unindexed_messages marked ≡ count_unindexed_messages db - n)
unfolding get_unindexed_messages count_unindexed_messages
mark_batch-queue n k db h =
    let queue = retain to_index db.messages in
    let sorted = Increasing-retain to_index db.messages h in
    let ids = map row_id (take n (by_id queue)) in
    let behind : retain to_index (mark_messages_indexed ids db).0.messages ≡ drop n queue =
      ap (retain to_index) (mark-messages ids db)
      ∙ set_indexed-to_index indexed (has_id ids) db.messages (λ m. refl)
      ∙ ap (λ q. retain (λ m. not (has_id (map row_id (take n q)) m)) queue)
          (by_id_lem queue sorted)
      ∙ not_in_batch n queue sorted in
    let order = Increasing-retain (λ m. not (has_id (map row_id (take n queue)) m)) queue sorted in
    let rest = subst (Increasing row_id) (not_in_batch n queue sorted) order in
    (
      ap (λ q. take k (by_id q)) behind ∙ ap (take k) (by_id_lem (drop n queue) rest),
      ap length behind ∙ length-drop n queue,
    )

VectorIndexed-cases : (v : VectorIndexed) → (v ≡ unindexed) ⊎ (v ≡ indexed) ⊎ (v ≡ failed)
VectorIndexed-cases unindexed = inl refl
VectorIndexed-cases indexed = inr (inl refl)
VectorIndexed-cases failed = inr (inr refl)

abbrev lost : Message → Bool
lost m = is_failed m.vector_indexed

none_failed : (ms : List Message) → length (retain lost (map (set_indexed unindexed lost) ms)) ≡ 0
none_failed [] = refl
none_failed (m ∷ ms) = elim (VectorIndexed-cases m.vector_indexed) [
  | inl e ↦ ground (arith, e, none_failed ms)
  | inr (inl e) ↦ ground (arith, e, none_failed ms)
  | inr (inr e) ↦ ground (arith, e, none_failed ms)
]

queued_again :
    (ms : List Message)
    → length (retain to_index (map (set_indexed unindexed lost) ms))
      ≡ length (retain to_index ms) + length (retain (λ m. lost m && is_assistant m.msg_type) ms)
queued_again [] = refl
queued_again (m ∷ ms) = elim (VectorIndexed-cases m.vector_indexed) [
  | inl e ↦ ground (arith, e, queued_again ms)
  | inr (inl e) ↦ ground (arith, e, queued_again ms)
  | inr (inr e) ↦ ground (arith, e, queued_again ms)
]

-- A reset puts every failed message back: none is failed any more, the queue grows by the failed
-- assistant messages, and the number that it returns is how many were failed.
pub reset_failed-counts :
    (db : SessionDb)
    → let (done, n) = reset_failed_indexed_messages db in
      (count_failed_indexed_messages done ≡ 0)
      × (count_unindexed_messages done
          ≡ count_unindexed_messages db
            + length
                (retain (λ m. is_failed m.vector_indexed && is_assistant m.msg_type) db.messages))
      × (n ≡ count_failed_indexed_messages db)
unfolding reset_failed_indexed_messages update_indexed count_failed_indexed_messages
    count_unindexed_messages
reset_failed-counts db = (none_failed db.messages, queued_again db.messages, refl)
