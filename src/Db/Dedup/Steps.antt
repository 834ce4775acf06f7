-- ===== src/Db/Dedup/Steps.antt =====
-- src/db.rs, deduplicate_projects: what one merge of two projects of one path leaves as it was.
use ai_cli_session_db.Prelude.{
  ℕ, String, List, [], ◌∷◌, Option, none, some, not, ◌≡◌, ◌≢◌, refl, ap, ◌∙◌, map, retain, ◌==◌,
  ==_iff, if◌then◌else◌, arith, any, false, inl, inr, Bool-cases,
}
use ai_cli_session_db.Db.{SessionDb, Session, Project}
use ai_cli_session_db.Db.Dedup.{update_sessions_project_id, delete_project}

-- The path that an id stands for.
abbrev pub path_at : ℕ → List Project → Option String
path_at id [] = none
path_at id (p ∷ ps) = let rest = path_at id ps in if p.id == id then some p.path else rest

-- A session with everything but its project's id, and the path of its project.
abbrev pub shown_session : List Project → Session → Session × Option String
shown_session ps s = (record s { project_id = 0 }, path_at s.project_id ps)

abbrev pub shown : SessionDb → List (Session × Option String)
shown db = map (shown_session db.projects) db.sessions

pub path_at-retain :
    (k id : ℕ) (ps : List Project)
    → path_at k (retain (λ p. not (p.id == id)) ps) ≡ (if k == id then none else path_at k ps)
path_at-retain k id [] = ground arith
path_at-retain k id (p ∷ ps) = ground (arith, path_at-retain k id ps)

abbrev pub moved_sessions : ℕ → ℕ → Session → Session
moved_sessions from to s = if s.project_id == from then record s { project_id = to } else s

-- The database after one step of the merge.
abbrev pub merged : ℕ → ℕ → SessionDb → SessionDb
merged keep id db = record db {
  sessions = map (moved_sessions id keep) db.sessions;
  projects = retain (λ p. not (p.id == id)) db.projects;
}

no_longer :
    (keep id : ℕ) (ss : List Session)
    → keep ≢ id
    → any (λ (s : Session). s.project_id == id) (map (moved_sessions id keep) ss) ≡ false
no_longer keep id [] n = refl
no_longer keep id (s ∷ ss) n = ground (arith, n, no_longer keep id ss n)

-- The delete of a step never fails: the sessions have just been moved.
pub step_merged :
    (keep id : ℕ) (db : SessionDb)
    → keep ≢ id
    → delete_project id (update_sessions_project_id id keep db).0 ≡ some (merged keep id db)
unfolding delete_project update_sessions_project_id
step_merged keep id db n = ground (arith, no_longer keep id db.sessions n)

shown_moved :
    (keep id : ℕ) (ps : List Project) (s : Session)
    → keep ≢ id
    → path_at keep ps ≡ path_at id ps
    → shown_session (retain (λ p. not (p.id == id)) ps) (moved_sessions id keep s)
      ≡ shown_session ps s
shown_moved keep id ps s n e = elim (Bool-cases (s.project_id == id)) [
  | inl q ↦
      let there : path_at keep (retain (λ p. not (p.id == id)) ps) ≡ path_at s.project_id ps =
        path_at-retain keep id ps
        ∙ ground (arith, n, e, ap (λ k. path_at k ps) ((==_iff s.project_id id).0 q)) in
      rw q (ap (λ o. (record s { project_id = 0 }, o)) there)
  | inr q ↦
      let there = path_at-retain s.project_id id ps in
      rw q (ap (λ o. (record s { project_id = 0 }, o)) (there ∙ rw q refl))
]

pub shown-merged :
    (keep id : ℕ) (db : SessionDb)
    → keep ≢ id
    → path_at keep db.projects ≡ path_at id db.projects
    → shown (merged keep id db) ≡ shown db
shown-merged keep id db n e = rows db.sessions
  where
    rows :
        (ss : List Session)
        → map
            (shown_session (retain (λ p. not (p.id == id)) db.projects))
            (map (moved_sessions id keep) ss)
          ≡ map (shown_session db.projects) ss
    rows [] = refl
    rows (s ∷ ss) =
        ap
          (λ x.
            x
            ∷ map (shown_session (retain (λ p. not (p.id == id)) db.projects))
                (map (moved_sessions id keep) ss))
          (shown_moved keep id db.projects s n e)
        ∙ ap (◌∷◌ (shown_session db.projects s)) (rows ss)
