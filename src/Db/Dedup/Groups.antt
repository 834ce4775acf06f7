-- ===== src/Db/Dedup/Groups.antt =====
-- src/db.rs, deduplicate_projects as a whole: the groups of the query, merged.
use ai_cli_session_db.Prelude.{
  ℕ, String, List, [], ◌∷◌, ◌++◌, Option, none, some, ◌≡◌, ◌≢◌, ◌⊎◌, refl, ◌∙◌, All, inl, inr, sym,
  subst,
}
use ai_cli_session_db.Db.{SessionDb, Project}
use ai_cli_session_db.Db.Dedup.{merge_groups}
use ai_cli_session_db.Db.Dedup.Steps.{path_at, shown}
use ai_cli_session_db.Db.Dedup.Removed.{
  AllDifferent, ids, IsWithout, IsWithout-none, IsWithout-append,
}
use ai_cli_session_db.Db.Dedup.Merge.{
  OneLeft, Survives, KeepsPaths, All-weaken, All-both, merge_group_lem,
}

abbrev pub Grouped : List Project → List (List ℕ) → Type 0
Grouped ps [] = Unit
Grouped ps (ids ∷ gs) =
    ((q : String) × All (λ i. path_at i ps ≡ some q) ids
      × AllDifferent ids
      × All (λ others. All (λ i. path_at i ps ≢ some q) others) gs)
    × Grouped ps gs

abbrev pub Fewer : List Project → List Project → Type 0
Fewer before after = (k : ℕ) → (path_at k after ≡ none) ⊎ (path_at k after ≡ path_at k before)

-- What holds of the paths of ids of another path stays.
All-Survives :
    (q : String) (before after : List Project) (P : Option String → Type 0) (ids : List ℕ)
    → Survives q before after
    → All (λ i. path_at i before ≢ some q) ids
    → All (λ i. P (path_at i before)) ids
    → All (λ i. P (path_at i after)) ids
All-Survives q before after P ids s other h =
    All-weaken (λ i. (path_at i before ≢ some q) × P (path_at i before)) (λ i. P (path_at i after))
      ids (λ i g. elim (s i) [ inl e ↦ subst P (sym e) g.1 | inr (e, f) ↦ absurd (g.0 f) ])
      (All-both (λ i. path_at i before ≢ some q) (λ i. P (path_at i before)) ids other h)

Grouped-Survives :
    (q : String) (before after : List Project) (gs : List (List ℕ))
    → Survives q before after
    → All (λ ids. All (λ i. path_at i before ≢ some q) ids) gs
    → Grouped before gs
    → Grouped after gs
Grouped-Survives q before after [] s other g = tt
Grouped-Survives q before after (ids ∷ gs) s (o, other) ((r, at, d, apart), g) = (
  (
    r,
    All-Survives q before after (λ p. p ≡ some r) ids s o at,
    d,
    All-weaken
        (λ others.
          All (λ i. path_at i before ≢ some q) others × All (λ i. path_at i before ≢ some r) others)
        (λ others. All (λ i. path_at i after ≢ some r) others) gs
        (λ others h. All-Survives q before after (λ p. p ≢ some r) others s h.0 h.1)
        (All-both (λ others. All (λ i. path_at i before ≢ some q) others)
          (λ others. All (λ i. path_at i before ≢ some r) others) gs other apart),
  ),
  Grouped-Survives q before after gs s other g,
)

OneLeft-Fewer :
    (ids : List ℕ) (before after : List Project)
    → Fewer before after
    → OneLeft ids before
    → OneLeft ids after
OneLeft-Fewer ids before after f (keep, gone) =
    (keep, λ i m ne. elim (f i) [ inl e ↦ e | inr e ↦ e ∙ gone i m ne ])

Fewer-trans : (a b c : List Project) → Fewer b c → Fewer a b → Fewer a c
Fewer-trans a b c f g k = elim (f k) [
  | inl e ↦ inl e
  | inr e ↦ elim (g k) [ inl h ↦ inl (e ∙ h) | inr h ↦ inr (e ∙ h) ]
]

Fewer-Survives : (q : String) (a b : List Project) → Survives q a b → Fewer a b
Fewer-Survives q a b s k = elim (s k) [ inl e ↦ inr e | inr h ↦ inl h.0 ]

pub merge_groups_lem :
    (gs : List (List ℕ)) (db : SessionDb)
    → Grouped db.projects gs
    → AllDifferent (ids db.projects)
    → (done : SessionDb) × (deleted : List ℕ) × (merge_groups gs db ≡ some (done, deleted))
      × (shown done ≡ shown db)
      × IsWithout db.projects deleted done.projects
      × KeepsPaths db.projects done.projects
      × Fewer db.projects done.projects
      × All (λ ids. OneLeft ids done.projects) gs
unfolding merge_groups
merge_groups_lem [] db g u =
    (db, [], refl, refl, IsWithout-none db.projects u, λ k p e. (k, e), λ k. inr refl, tt)
merge_groups_lem (js ∷ gs) db ((q, at, d, apart), g) u =
    let (next, deleted, e, same, removed, covers, survive, left) = merge_group_lem q js db at d u in
    let (done, later, f, same', removed', covers', fewer, all) =
      merge_groups_lem gs next (Grouped-Survives q db.projects next.projects gs survive apart g)
        removed.different in
    (
      done,
      deleted ++ later,
      rw (e, merge_groups) (rw f refl),
      same' ∙ same,
      IsWithout-append deleted later db.projects next.projects done.projects removed removed',
      λ k p h. let (j, there) = covers k p h in covers' j p there,
      Fewer-trans db.projects next.projects done.projects fewer
          (Fewer-Survives q db.projects next.projects survive),
      (OneLeft-Fewer js next.projects done.projects fewer left, all),
    )
