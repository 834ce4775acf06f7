-- ===== src/Db/Dedup/Unique.antt =====
-- src/db.rs, deduplicate_projects: the result.
use ai_cli_session_db.Prelude.{
  Has-map_of, ℕ, String, List, [], ◌∷◌, some, not, ◌≡◌, ◌≢◌, refl, ◌∙◌, map, ◌==◌, ==_iff, arith,
  true, All, Has, inl, inr, Bool-cases, sym, length, ltb, str_eq, str_eq_iff, Has-retain_of, subst,
}
use ai_cli_session_db.Db.{SessionDb, Project}
use ai_cli_session_db.Db.Dedup.{ids_of, paths_of, duplicates, deduplicate_projects}
use ai_cli_session_db.Db.Dedup.Steps.{path_at, shown}
use ai_cli_session_db.Db.Dedup.Removed.{AllDifferent, ids, IsWithout}
use ai_cli_session_db.Db.Dedup.Merge.{OneLeft, KeepsPaths}
use ai_cli_session_db.Db.Dedup.Query.{Grouped-of_paths, Apart-paths_of}
use ai_cli_session_db.Db.Dedup.Groups.{Fewer, merge_groups_lem}

Has-ids_of : (j : ℕ) (q : String) (ps : List Project) → path_at j ps ≡ some q → Has j (ids_of q ps)
Has-ids_of j q [] e = cc
Has-ids_of j q (p ∷ ps) e = elim (Bool-cases (p.id == j)) [
  | inl h ↦
      let path : some p.path ≡ some q = rw h at e in
      let same : str_eq p.path q ≡ true = (str_eq_iff p.path q).1 (ground (arith, path)) in
      rw same (inl (sym ((==_iff p.id j).0 h)))
  | inr h ↦
      let later = Has-ids_of j q ps (rw h at e) in
      elim (Bool-cases (str_eq p.path q)) [ inl f ↦ rw f (inr later) | inr f ↦ rw f later ]
]

Has-paths_of :
    (j : ℕ) (q : String) (ps : List Project) → path_at j ps ≡ some q → Has q (paths_of ps)
Has-paths_of j q [] e = cc
Has-paths_of j q (p ∷ ps) e = elim (Bool-cases (str_eq q p.path)) [
  | inl f ↦ inl ((str_eq_iff q p.path).0 f)
  | inr f ↦ elim (Bool-cases (p.id == j)) [
    | inl h ↦ let path : some p.path ≡ some q = rw h at e in inl (ground (arith, path))
    | inr h ↦ inr (
        Has-retain_of (λ r. not (str_eq r p.path)) q (paths_of ps) (Has-paths_of j q ps (rw h at e))
          (rw f refl))
  ]
]

-- A list with two different members has two members.
two_members : (j k : ℕ) (xs : List ℕ) → Has j xs → Has k xs → j ≢ k → ltb 1 (length xs) ≡ true
two_members j k [] m n d = absurd m
two_members j k (x ∷ []) (inl a) (inl b) d = absurd (d (a ∙ sym b))
two_members j k (x ∷ []) (inl a) (inr n) d = absurd n
two_members j k (x ∷ []) (inr m) n d = absurd m
two_members j k (x ∷ y ∷ xs) m n d = ground arith

All-Has : {A : Type 0} (P : A → Type 0) (x : A) (xs : List A) → All P xs → Has x xs → P x
All-Has P x [] h m = absurd m
All-Has P x (y ∷ ys) (h, hs) (inl e) = subst P (sym e) h
All-Has P x (y ∷ ys) (h, hs) (inr m) = All-Has P x ys hs m

still :
    (before after : List Project) (j : ℕ) (q : String)
    → Fewer before after
    → path_at j after ≡ some q
    → path_at j before ≡ some q
still before after j q f e = elim (f j) [
  | inl n ↦ absurd (ground (arith, n, e))
  | inr s ↦ sym s ∙ e
]

one_project :
    (before after : List Project) (js : List ℕ) (q : String) (j k : ℕ)
    → OneLeft js after
    → Has j js
    → Has k js
    → path_at j after ≡ some q
    → path_at k after ≡ some q
    → j ≢ k
    → ⊥
one_project before after js q j k (keep, gone) m n e f d = elim (Bool-cases (j == keep)) [
  | inl h ↦ let out = gone k n (λ s. d ((==_iff j keep).0 h ∙ sym s)) in ground (arith, out, f)
  | inr h ↦ let out = gone j m (λ s. cc ((==_iff j keep).1 s, h)) in ground (arith, out, e)
]

-- Where the ids of projects are distinct, deduplication succeeds. The ids that it reports are exactly
-- those of the rows that it deletes, each once, and the count is their number. Every session is there
-- as before, in its old order and with all of its fields but the id of its project, and its project
-- has the path that it had. Afterwards every path that had a project has one, and no two projects
-- share a path.
pub deduplicate_projects_unique :
    (db : SessionDb)
    → AllDifferent (ids db.projects)
    → (done : SessionDb) × (deleted : List ℕ) × (deduplicate_projects db
        ≡ some (done, length deleted, deleted))
      × IsWithout db.projects deleted done.projects
      × (shown done ≡ shown db)
      × KeepsPaths db.projects done.projects
      × ((j k : ℕ) (q : String)
          → path_at j done.projects ≡ some q
          → path_at k done.projects ≡ some q
          → j ≡ k)
unfolding deduplicate_projects duplicates
deduplicate_projects_unique db d =
    let ps = db.projects in
    let (done, deleted, e, same, removed, covers, fewer, left) =
      merge_groups_lem (duplicates db) db (Grouped-of_paths ps (paths_of ps) d (Apart-paths_of ps))
        d in
    (
      done,
      deleted,
      rw (e, deduplicate_projects) refl,
      removed,
      same,
      covers,
      λ j k q a b. elim (Bool-cases (j == k)) [
        | inl h ↦ (==_iff j k).0 h
        | inr h ↦
            let apart : j ≢ k = λ s. cc ((==_iff j k).1 s, h) in
            let first = Has-ids_of j q ps (still ps done.projects j q fewer a) in
            let second = Has-ids_of k q ps (still ps done.projects k q fewer b) in
            let listed =
              Has-retain_of (λ js. ltb 1 (length js)) (ids_of q ps)
                (map (λ r. ids_of r ps) (paths_of ps))
                (Has-map_of (λ r. ids_of r ps) q (paths_of ps)
                  (Has-paths_of j q ps (still ps done.projects j q fewer a)))
                (two_members j k (ids_of q ps) first second apart) in
            absurd (
              one_project ps done.projects (ids_of q ps) q j k
                (All-Has (λ js. OneLeft js done.projects) (ids_of q ps) (duplicates db) left listed)
                first second a b apart)
      ],
    )
