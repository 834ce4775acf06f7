-- ===== src/Db/Projects.antt =====
-- src/db.rs, the project table: a project is found by its path or created.
use ai_cli_session_db.Prelude.{
  ℕ, suc, String, List, [], ◌∷◌, ◌++◌, Option, none, some, ◌≡◌, refl, sym, ap, ◌∙◌, inl, inr, map,
  str_eq, str_eq_iff, str_eq_refl, subst, if◌then◌else◌, ◌==◌, Bool-cases, Option-cases, arith,
}
use ai_cli_session_db.Db.{SessionDb, Project}

-- `SELECT id FROM projects WHERE path = ?1`, in rowid order.
unfoldable pub project_id : String → List Project → Option ℕ
project_id path [] = none
project_id path (p ∷ ps) =
    let rest = project_id path ps in if str_eq p.path path then some p.id else rest

-- `COALESCE(?2, encoded_dir_name)`.
abbrev pub touch : ℕ → Option String → Project → Project
touch now none p = record p { updated_at = now }
touch now (some encoded) p = record p { updated_at = now; encoded_dir_name = some encoded }

abbrev pub touch_id : ℕ → ℕ → Option String → List Project → List Project
touch_id id now encoded ps = map (λ p. if p.id == id then touch now encoded p else p) ps

-- `get_or_create_project_with_encoded`.
unfoldable pub get_or_create_project_with_encoded :
    String → String → String → Option String → ℕ → SessionDb → SessionDb × ℕ
unfolding project_id
get_or_create_project_with_encoded name path source encoded now db =
    elim (project_id path db.projects) [
      | some id ↦ (record db { projects = touch_id id now encoded db.projects }, id)
      | none ↦
          let id = suc db.last_project_id in
          (
            record db {
              projects =
                  db.projects
                  ++ record {
                    id = id;
                    name = name;
                    path = path;
                    source = source;
                    encoded_dir_name = encoded;
                    repo_url = none;
                    created_at = now;
                    updated_at = now;
                  }
                    ∷ [];
              last_project_id = id;
            },
            id,
          )
    ]

unfoldable pub get_or_create_project : String → String → String → ℕ → SessionDb → SessionDb × ℕ
unfolding get_or_create_project_with_encoded
get_or_create_project name path source now db =
    get_or_create_project_with_encoded name path source none now db

project_id-touch :
    (path : String) (id now : ℕ) (encoded : Option String) (ps : List Project)
    → project_id path (touch_id id now encoded ps) ≡ project_id path ps
unfolding project_id
project_id-touch path id now encoded [] = refl
project_id-touch path id now none (p ∷ ps) = ground (arith, project_id-touch path id now none ps)
project_id-touch path id now (some e) (p ∷ ps) =
    ground (arith, project_id-touch path id now (some e) ps)

project_id-append :
    (path : String) (ps : List Project) (q : Project)
    → project_id path (ps ++ q ∷ []) ≡ elim (project_id path ps) [
      | some id ↦ some id
      | none ↦ if str_eq q.path path then some q.id else none
    ]
unfolding project_id
project_id-append path [] q = refl
project_id-append path (p ∷ ps) q = ground (arith, project_id-append path ps q)

-- After a call the path has the id that was returned, every other path the id that it had, or none.
pub get_or_create_project-project_id :
    (name path source other : String) (encoded : Option String) (now : ℕ) (db : SessionDb)
    → let (done, id) = get_or_create_project_with_encoded name path source encoded now db in
      project_id other done.projects
      ≡ (if str_eq path other then some id else project_id other db.projects)
unfolding get_or_create_project_with_encoded
get_or_create_project-project_id name path source other encoded now db =
    elim (Option-cases (project_id path db.projects)) [
      | inr (id, e) ↦
          rw (e, get_or_create_project_with_encoded)
            (project_id-touch other id now encoded db.projects ∙ known id e)
      | inl e ↦
          rw (e, get_or_create_project_with_encoded)
            (project_id-append other db.projects _ ∙ created (suc db.last_project_id) e)
    ]
  where
    known :
        (id : ℕ)
        → project_id path db.projects ≡ some id
        → project_id other db.projects
          ≡ (if str_eq path other then some id else project_id other db.projects)
    known id e = elim (Bool-cases (str_eq path other)) [
      | inl s ↦ rw s (ap (λ p. project_id p db.projects) (sym ((str_eq_iff path other).0 s)) ∙ e)
      | inr s ↦ rw s refl
    ]

    created :
        (id : ℕ)
        → project_id path db.projects ≡ none
        → (elim (project_id other db.projects) [
          | some k ↦ some k
          | none ↦ if str_eq path other then some id else none
        ])
          ≡ (if str_eq path other then some id else project_id other db.projects)
    created id e = elim (Bool-cases (str_eq path other)) [
      | inl s ↦
          let none_yet =
            ap (λ p. project_id p db.projects) (sym ((str_eq_iff path other).0 s)) ∙ e in
          rw (none_yet, s) refl
      | inr s ↦ elim (Option-cases (project_id other db.projects)) [
        | inl f ↦ rw (f, s) refl
        | inr (k, f) ↦ rw (f, s) refl
      ]
    ]

-- The id of a path is the one that it had, and a fresh one where it had none.
abbrev pub IsIdOf : Option ℕ → ℕ → ℕ → Type 0
IsIdOf none fresh id = id ≡ fresh
IsIdOf (some old) fresh id = id ≡ old

returned_id :
    (name path source : String) (encoded : Option String) (now : ℕ) (db : SessionDb)
    → IsIdOf
        (project_id path db.projects)
        (suc db.last_project_id)
        (get_or_create_project_with_encoded name path source encoded now db).1
unfolding get_or_create_project_with_encoded
returned_id name path source encoded now db = elim (Option-cases (project_id path db.projects)) [
  | inl e ↦ rw (e, get_or_create_project_with_encoded) refl
  | inr (id, e) ↦ rw (e, get_or_create_project_with_encoded) refl
]

-- A call returns the id that the path has, and where it has none the id of a new row. Afterwards the
-- path has the returned id, every other path the id that it had, or none, and a second call for the
-- path, with whatever name and source and at any time, returns the same id.
pub get_or_create_project-stable :
    (name path source other : String) (encoded : Option String) (now : ℕ) (db : SessionDb)
    (name' source' : String) (encoded' : Option String) (later : ℕ)
    → let (done, id) = get_or_create_project_with_encoded name path source encoded now db in
      IsIdOf (project_id path db.projects) (suc db.last_project_id) id
      × (project_id other done.projects
          ≡ (if str_eq path other then some id else project_id other db.projects))
      × ((get_or_create_project_with_encoded name' path source' encoded' later done).1 ≡ id)
get_or_create_project-stable name path source other encoded now db name' source' encoded' later =
    let (done, id) = get_or_create_project_with_encoded name path source encoded now db in
    let there : project_id path done.projects ≡ some id =
      get_or_create_project-project_id name path source path encoded now db
      ∙ rw (str_eq_refl path) refl in
    (
      returned_id name path source encoded now db,
      get_or_create_project-project_id name path source other encoded now db,
      subst
          (λ o.
            IsIdOf o (suc done.last_project_id)
              (get_or_create_project_with_encoded name' path source' encoded' later done).1)
          there (returned_id name' path source' encoded' later done),
    )
