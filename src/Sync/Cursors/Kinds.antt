-- ===== src/Sync/Cursors/Kinds.antt =====
-- src/sync/db.rs: the cursors of summaries, one for each level of a session, and of vectors.
use ai_cli_session_db.Prelude.{
  ℕ, String, List, [], ◌∷◌, Option, none, some, Bool, ◌&&◌, ◌≡◌, refl, map, str_eq, str_eq_iff,
  if◌then◌else◌, arith,
}
use ai_cli_session_db.Sync.Cursors.{
  SyncDb, find, upsert, find-upsert, get_cursor, update_cursor, get_cursor-update_cursor,
}

abbrev pub same_level : String × String → String → String → Bool
same_level (session_id, level) id l = str_eq session_id id && str_eq level l

unfoldable pub find_level : String → String → List ((String × String) × String) → Option String
find_level id l [] = none
find_level id l ((k, v) ∷ rows) =
    let rest = find_level id l rows in if same_level k id l then some v else rest

unfoldable pub upsert_level :
    String → String → String → List ((String × String) × String) → List ((String × String) × String)
upsert_level id l v [] = ((id, l), v) ∷ []
upsert_level id l v ((k, w) ∷ rows) =
    let rest = (k, w) ∷ upsert_level id l v rows in
    if same_level k id l then (k, v) ∷ rows else rest

unfoldable pub get_compact_cursor : String → String → SyncDb → Option String
get_compact_cursor id l db = find_level id l db.compact_cursors

unfoldable pub update_compact_cursor : String → String → String → SyncDb → SyncDb
update_compact_cursor id l last_id db = record db {
  compact_cursors = upsert_level id l last_id db.compact_cursors;
}

unfoldable pub get_vector_cursor : String → SyncDb → ℕ
get_vector_cursor id db = elim (find id db.vector_cursors) [ none ↦ 0 | some n ↦ n ]

unfoldable pub update_vector_cursor : String → ℕ → SyncDb → SyncDb
update_vector_cursor id last_message_id db = record db {
  vector_cursors = upsert id (λ old. last_message_id) db.vector_cursors;
}

unfoldable pub get_all_cursors : SyncDb → List (String × ℕ)
get_all_cursors db = map (λ r. (r.0, r.1.last_sequence)) db.sync_cursors

find_level-upsert :
    (id l other m v : String) (rows : List ((String × String) × String))
    → find_level other m (upsert_level id l v rows)
      ≡ (if same_level (id, l) other m then some v else find_level other m rows)
unfolding find_level upsert_level
find_level-upsert id l other m v [] = refl
find_level-upsert id l other m v (((k, j), w) ∷ rows) = ground (
  arith,
  str_eq_iff k id,
  str_eq_iff j l,
  str_eq_iff k other,
  str_eq_iff j m,
  str_eq_iff id other,
  str_eq_iff l m,
  find_level-upsert id l other m v rows,
)

-- Reading after writing, for the three kinds of cursors: the one that was written reads as what was
-- written, every other as before.
pub read_after_write :
    (id other l m last_id : String) (n now : ℕ) (db : SyncDb)
    → (get_cursor other (update_cursor id n now db)
        ≡ (if str_eq id other then (n, now) else get_cursor other db))
      × (get_compact_cursor other m (update_compact_cursor id l last_id db)
          ≡ (if same_level (id, l) other m then some last_id else get_compact_cursor other m db))
      × (get_vector_cursor other (update_vector_cursor id n db)
          ≡ (if str_eq id other then n else get_vector_cursor other db))
unfolding get_compact_cursor update_compact_cursor get_vector_cursor update_vector_cursor
read_after_write id other l m last_id n now db = (
  get_cursor-update_cursor id other n now db,
  find_level-upsert id l other m last_id db.compact_cursors,
  ground (arith, find-upsert id other (λ old. n) db.vector_cursors),
)
