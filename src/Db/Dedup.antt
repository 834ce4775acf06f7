-- ===== src/Db/Dedup.antt =====
-- src/db.rs: projects that share a path are merged, and projects are deleted. In a database that
-- predates the unique path there can be several projects of one path.
pub mod Sorted
pub mod Steps
pub mod Removed
pub mod Merge
pub mod Groups
pub mod Query
pub mod Unique
use ai_cli_session_db.Prelude.{
  ℕ, suc, ◌+◌, String, List, [], ◌∷◌, ◌++◌, Option, none, some, Bool, not, ◌&&◌, map, any, retain,
  length, str_eq, leb, ltb, ◌==◌, if◌then◌else◌,
}
use ai_cli_session_db.Db.{SessionDb, Session, Project}
use ai_cli_session_db.Db.Listing.{sessions_of}

-- `UPDATE sessions SET project_id = ?1 WHERE project_id = ?2`, with the rows that it changed.
unfoldable pub update_sessions_project_id : ℕ → ℕ → SessionDb → SessionDb × ℕ
update_sessions_project_id from to db = (
  record db {
    sessions =
        map (λ s. if s.project_id == from then record s { project_id = to } else s) db.sessions;
  },
  length (sessions_of from db),
)

-- `DELETE FROM projects`; `none` is the foreign key of a session that the project still has.
unfoldable pub delete_project : ℕ → SessionDb → Option SessionDb
delete_project id db =
    if db.foreign_keys
      && any (λ (s : Session). s.project_id == id) db.sessions
      && any (λ (p : Project). p.id == id) db.projects
    then none
    else some (record db { projects = retain (λ p. not (p.id == id)) db.projects })

-- A stable `sort_by(|a, b| b.1.cmp(&a.1))`.
abbrev pub insert_desc : ℕ × ℕ → List (ℕ × ℕ) → List (ℕ × ℕ)
insert_desc a [] = a ∷ []
insert_desc a (x ∷ xs) = let rest = x ∷ insert_desc a xs in if leb x.1 a.1 then a ∷ x ∷ xs else rest

abbrev pub sort_desc : List (ℕ × ℕ) → List (ℕ × ℕ)
sort_desc [] = []
sort_desc (x ∷ xs) = insert_desc x (sort_desc xs)

-- `GROUP_CONCAT(id)` of one path; the text of the numbers is read back at once.
abbrev pub ids_of : String → List Project → List ℕ
ids_of path ps = map (λ p. p.id) (retain (λ p. str_eq p.path path) ps)

abbrev pub paths_of : List Project → List String
paths_of [] = []
paths_of (p ∷ ps) = p.path ∷ retain (λ q. not (str_eq q p.path)) (paths_of ps)

-- `GROUP BY path HAVING COUNT(*) > 1`.
unfoldable pub duplicates : SessionDb → List (List ℕ)
duplicates db =
    retain (λ ids. ltb 1 (length ids))
      (map (λ path. ids_of path db.projects) (paths_of db.projects))

-- The ids with their sessions, those with most sessions first.
unfoldable pub project_sessions : List ℕ → SessionDb → List (ℕ × ℕ)
project_sessions ids db = sort_desc (map (λ id. (id, length (sessions_of id db))) ids)

-- The sessions of the others move to the project that is kept; `none` is an error of SQLite.
unfoldable pub merge_into : ℕ → List (ℕ × ℕ) → SessionDb → Option (SessionDb × List ℕ)
merge_into keep [] db = some (db, [])
merge_into keep ((id, n) ∷ others) db =
    elim (delete_project id (update_sessions_project_id id keep db).0) [
      | none ↦ none
      | some db' ↦ elim (merge_into keep others db') [
        | none ↦ none
        | some (done, deleted) ↦ some (done, id ∷ deleted)
      ]
    ]

unfoldable pub merge_group : List (ℕ × ℕ) → SessionDb → Option (SessionDb × List ℕ)
merge_group [] db = some (db, [])
merge_group ((keep, n) ∷ others) db = merge_into keep others db

unfoldable pub merge_groups : List (List ℕ) → SessionDb → Option (SessionDb × List ℕ)
merge_groups [] db = some (db, [])
merge_groups (ids ∷ groups) db = elim (merge_group (project_sessions ids db) db) [
  | none ↦ none
  | some (db', deleted) ↦ elim (merge_groups groups db') [
    | none ↦ none
    | some (done, later) ↦ some (done, deleted ++ later)
  ]
]

-- The database, how many were merged and the ids that were deleted.
unfoldable pub deduplicate_projects : SessionDb → Option (SessionDb × ℕ × List ℕ)
deduplicate_projects db = elim (merge_groups (duplicates db) db) [
  | none ↦ none
  | some (done, deleted) ↦ some (done, length deleted, deleted)
]
