-- ===== src/Sync/Client/Chunks.antt =====
-- One read of read_messages (src/sync/client.rs): the first `batch_size` messages above the cursor,
-- after which the cursor stands on the last of them.
use ai_cli_session_db.Prelude.{
  ℕ, zero, suc, ◌≤◌, ◌<◌, max, String, List, [], ◌∷◌, some, Bool, map, take, drop, ◌≡◌, refl, sym,
  ap, ◌∙◌, inl, inr, Has, Has-map, Has-take, Has-retain, subst, arith, ltb, Option-cases,
}
use ai_cli_session_db.Prelude.Sorting.{
  sort_by, sort_by-retain, left_of, Increasing, Has-sort_by, left_of-left_of, left_of-All,
  Increasing-left_of,
}
use ai_cli_session_db.Db.{SessionDb, Message}
use ai_cli_session_db.Db.Messages.{in_session, max_of}
use ai_cli_session_db.Sync.Batch.{SyncMessage}
use ai_cli_session_db.Sync.Collect.{read_messages, sync_message}
use ai_cli_session_db.Sync.Client.{max_sequence}

abbrev pub seq : Message → ℕ
seq m = m.sequence

-- The messages of a session in the order of their sequences.
abbrev pub ordered : String → SessionDb → List Message
ordered id db = sort_by seq (in_session id db.messages)

-- A read takes from the ordered messages that are left above the cursor.
pub read_messages_lem :
    (raw : Bool) (n : ℕ) (id : String) (after : ℕ) (db : SessionDb)
    → read_messages raw n id after db
      ≡ map (sync_message raw) (take n (left_of seq after (ordered id db)))
unfolding read_messages
read_messages_lem raw n id after db =
    ap (λ ms. map (sync_message raw) (take n ms))
      (sort_by-retain seq (λ m. ltb after m.sequence) (in_session id db.messages))

-- Every message of a read is a row of the session.
pub read_messages-row :
    (raw : Bool) (n : ℕ) (id : String) (after : ℕ) (db : SessionDb) (m : SyncMessage)
    → Has m (read_messages raw n id after db)
    → (r : Message) × Has r (in_session id db.messages)
      × (after < r.sequence)
      × (m ≡ sync_message raw r)
read_messages-row raw n id after db m h =
    let from =
      Has-map (sync_message raw) m (take n (left_of seq after (ordered id db)))
        (subst (Has m) (read_messages_lem raw n id after db) h) in
    let kept =
      Has-retain (λ (r : Message). ltb after r.sequence) from.0 (ordered id db)
        (Has-take n from.0 (left_of seq after (ordered id db)) from.1) in
    (from.0, Has-sort_by seq from.0 (in_session id db.messages) kept.0, ground arith, from.2)

max_of-cons : (n : ℕ) (ns : List ℕ) (top : ℕ) → max_of (n ∷ ns) ≡ some top → n ≤ top
unfolding max_of
max_of-cons n ns top e = elim (Option-cases (max_of ns)) [
  | inl f ↦ ground arith
  | inr (m, f) ↦ ground arith
]

max_of-later :
    (n k : ℕ) (ns : List ℕ) (top : ℕ)
    → n < k
    → max_of (n ∷ k ∷ ns) ≡ some top
    → max_of (k ∷ ns) ≡ some top
unfolding max_of
max_of-later n k ns top lt e = elim (Option-cases (max_of ns)) [
  | inl f ↦ ground arith
  | inr (m, f) ↦ ground arith
]

-- Past the highest sequence of a first part there is left exactly the rest.
max_of-take :
    (n : ℕ) (xs : List Message) (top : ℕ)
    → Increasing seq xs
    → max_of (map seq (take (suc n) xs)) ≡ some top
    → left_of seq top xs ≡ drop (suc n) xs
max_of-take n [] top inc e = refl
max_of-take zero (x ∷ xs) top inc e =
    let same : seq x ≡ top = unfold max_of in ground arith in
    ground (arith, left_of-All seq (seq x) xs inc.0)
max_of-take (suc n) (x ∷ []) top inc e = ground (arith, max_of-cons (seq x) [] top e)
max_of-take (suc n) (x ∷ y ∷ ys) top inc e =
    let later = max_of-later (seq x) (seq y) (map seq (take n ys)) top inc.0.0 e in
    ground (
      arith,
      max_of-take n (y ∷ ys) top inc.1 later,
      max_of-cons (seq y) (map seq (take n ys)) top later,
      inc.0.0,
    )

map-seq :
    (raw : Bool) (xs : List Message)
    → map (λ (m : SyncMessage). m.sequence) (map (sync_message raw) xs) ≡ map seq xs
unfolding sync_message
map-seq raw [] = refl
map-seq raw (x ∷ xs) = ap (◌∷◌ (seq x)) (map-seq raw xs)

max_of-some : (n : ℕ) (ns : List ℕ) → (top : ℕ) × (max_of (n ∷ ns) ≡ some top)
unfolding max_of
max_of-some n ns = elim (Option-cases (max_of ns)) [
  | inl f ↦ (n, rw (f, max_of))
  | inr (m, f) ↦ (max n m, rw (f, max_of))
]

max_sequence_lem :
    (raw : Bool) (after top : ℕ) (ms : List Message)
    → max_of (map seq ms) ≡ some top
    → max_sequence after (map (sync_message raw) ms) ≡ top
unfolding max_sequence
max_sequence_lem raw after top ms e = rw (map-seq raw ms, e, max_sequence)

module _ (raw : Bool) (n after : ℕ) (xs : List Message) (x : Message) (rest : List Message)
    (e : left_of seq after xs ≡ x ∷ rest) where
  -- The highest sequence of a read that was not empty lies above the cursor.
  pub read_top :
      (top : ℕ) × (max_of (map seq (take (suc n) (left_of seq after xs))) ≡ some top)
      × (max_sequence after (map (sync_message raw) (take (suc n) (left_of seq after xs))) ≡ top)
      × (after < top)
      × (seq x ≤ top)
  read_top =
      let t = max_of-some (seq x) (map seq (take n rest)) in
      let m : max_of (map seq (take (suc n) (left_of seq after xs))) ≡ some t.0 = rw e t.1 in
      let ge = max_of-cons (seq x) (map seq (take n rest)) t.0 t.1 in
      let above =
        Has-retain (λ (r : Message). ltb after r.sequence) x xs
          (subst (Has x) (sym e) (inl refl)) in
      (
        t.0,
        m,
        max_sequence_lem raw after t.0 (take (suc n) (left_of seq after xs)) m,
        ground arith,
        ge,
      )

  -- After such a read the cursor leaves exactly the messages behind those read.
  pub left_of-max_sequence :
      Increasing seq xs
      → left_of seq
          (max_sequence after (map (sync_message raw) (take (suc n) (left_of seq after xs))))
          xs
        ≡ drop (suc n) (left_of seq after xs)
  left_of-max_sequence inc =
      let (top, m, same, lt, ge) = read_top in
      ap (λ k. left_of seq k xs) same
      ∙ sym (left_of-left_of seq after top xs (omega arith))
      ∙ max_of-take n (left_of seq after xs) top (Increasing-left_of seq after xs inc) m
