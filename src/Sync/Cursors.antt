-- ===== src/Sync/Cursors.antt =====
-- src/sync/db.rs: sync.db, the state that the push keeps between runs. A table is an association
-- list on its primary key. The clock is the argument `now`, a new uuid the argument `fresh`.
pub mod Kinds
use mathlib.Core.Option
use ai_cli_session_db.Prelude.{
  ℕ, String, List, [], ◌∷◌, Option, none, some, ◌≡◌, refl, str_eq, str_eq_iff, str_eq_refl,
  if◌then◌else◌, arith,
}

-- A row of `sync_cursors`, without its key.
pub record Cursor : Type 0 where
  pub last_sequence : ℕ
  pub last_push_at : ℕ
  pub synced_message_count : ℕ

pub record SyncDb : Type 0 where
  pub sync_cursors : List (String × Cursor)
  pub compact_cursors : List ((String × String) × String)
  pub vector_cursors : List (String × ℕ)
  pub sync_state : List (String × String)

module _ {V : Type 0} where
  -- `SELECT … WHERE key = ?1`.
  unfoldable pub find : String → List (String × V) → Option V
  find k [] = none
  find k ((j, v) ∷ rows) = if str_eq j k then some v else find k rows

  -- `INSERT … ON CONFLICT(key) DO UPDATE`, where `merge` makes the new row of the old one.
  unfoldable pub upsert : String → (Option V → V) → List (String × V) → List (String × V)
  upsert k merge [] = (k, merge none) ∷ []
  upsert k merge ((j, v) ∷ rows) =
      if str_eq j k then (j, merge (some v)) ∷ rows else (j, v) ∷ upsert k merge rows

  pub find-upsert :
      (k j : String) (merge : Option V → V) (rows : List (String × V))
      → find j (upsert k merge rows)
        ≡ (if str_eq k j then some (merge (find k rows)) else find j rows)
  unfolding find upsert
  find-upsert k j merge [] = refl
  find-upsert k j merge ((i, v) ∷ rows) =
      ground (arith, str_eq_iff i k, str_eq_iff i j, str_eq_iff k j, find-upsert k j merge rows)

-- `get_cursor`: no row reads as (0, 0).
unfoldable pub get_cursor : String → SyncDb → ℕ × ℕ
get_cursor id db = elim (find id db.sync_cursors) [
  | none ↦ (0, 0)
  | some c ↦ (c.last_sequence, c.last_push_at)
]

-- The row that `update_cursor` writes: a new one has the column's default count.
abbrev pub move_cursor : ℕ → ℕ → Option Cursor → Cursor
move_cursor last_sequence now none = record {
  last_sequence = last_sequence;
  last_push_at = now;
  synced_message_count = 0;
}
move_cursor last_sequence now (some c) = record c {
  last_sequence = last_sequence;
  last_push_at = now;
}

unfoldable pub update_cursor : String → ℕ → ℕ → SyncDb → SyncDb
update_cursor id last_sequence now db = record db {
  sync_cursors = upsert id (move_cursor last_sequence now) db.sync_cursors;
}

abbrev count_cursor : ℕ → ℕ → ℕ → Option Cursor → Cursor
count_cursor last_sequence message_count now old = record {
  last_sequence = last_sequence;
  last_push_at = now;
  synced_message_count = message_count;
}

unfoldable pub update_cursor_with_count : String → ℕ → ℕ → ℕ → SyncDb → SyncDb
update_cursor_with_count id last_sequence message_count now db = record db {
  sync_cursors = upsert id (count_cursor last_sequence message_count now) db.sync_cursors;
}

-- The column `synced_message_count` of a row, where there is one.
unfoldable pub synced_count : String → SyncDb → Option ℕ
synced_count id db = Option.map (λ c. c.synced_message_count) (find id db.sync_cursors)

unfoldable pub get_state : String → SyncDb → Option String
get_state key db = find key db.sync_state

unfoldable pub set_state : String → String → SyncDb → SyncDb
set_state key value db = record db { sync_state = upsert key (λ old. value) db.sync_state }

unfoldable pub get_or_init_device_id : String → SyncDb → SyncDb × String
get_or_init_device_id fresh db = elim (get_state "device_id" db) [
  | some id ↦ (db, id)
  | none ↦ (set_state "device_id" fresh db, fresh)
]

-- `reset`: the cursors go, the state stays.
unfoldable pub reset : SyncDb → SyncDb
reset db = record db { sync_cursors = []; compact_cursors = []; vector_cursors = [] }

-- The device keeps the id that it was first given, whatever is offered later.
pub device_id_stable :
    (first later : String) (db : SyncDb)
    → let (db', id) = get_or_init_device_id first db in
      get_or_init_device_id later (reset db') ≡ (reset db', id)
unfolding get_or_init_device_id get_state set_state reset
device_id_stable first later db = ground (
  arith,
  find-upsert "device_id" "device_id" (λ old. first) db.sync_state,
  str_eq_refl "device_id",
)

-- Reading a cursor after writing one: the session that was written has the new sequence, and every
-- other keeps its own.
pub get_cursor-update_cursor :
    (id other : String) (n now : ℕ) (db : SyncDb)
    → get_cursor other (update_cursor id n now db)
      ≡ (if str_eq id other then (n, now) else get_cursor other db)
unfolding get_cursor update_cursor
get_cursor-update_cursor id other n now db = ground (
  arith,
  find-upsert id other (move_cursor n now) db.sync_cursors,
  cursor_cases (find id db.sync_cursors),
)
  where
    cursor_cases :
        (o : Option Cursor)
        → ((move_cursor n now o).last_sequence ≡ n) × ((move_cursor n now o).last_push_at ≡ now)
    cursor_cases none = (refl, refl)
    cursor_cases (some c) = (refl, refl)

-- The count that closes a run is read back with the sequence.
pub get_cursor-update_cursor_with_count :
    (id : String) (n count now : ℕ) (db : SyncDb)
    → (get_cursor id (update_cursor_with_count id n count now db) ≡ (n, now))
      × (synced_count id (update_cursor_with_count id n count now db) ≡ some count)
unfolding get_cursor update_cursor_with_count synced_count
get_cursor-update_cursor_with_count id n count now db = (
  ground (arith, find-upsert id id (count_cursor n count now) db.sync_cursors, str_eq_refl id),
  ground (arith, find-upsert id id (count_cursor n count now) db.sync_cursors, str_eq_refl id),
)
