-- ===== src/Db/Dedup/Merge.antt =====
-- src/db.rs, deduplicate_projects: the merge of the groups, one after the other.
use ai_cli_session_db.Prelude.{
  ℕ, String, List, [], ◌∷◌, none, some, ◌≡◌, ◌≢◌, ◌⊎◌, refl, ap, ◌∙◌, map, ◌==◌, ==_iff,
  if◌then◌else◌, arith, any, ◌||◌, true, false, All, Has, inl, inr, Bool, Bool-cases, sym, length,
  subst,
}
use ai_cli_session_db.Db.{SessionDb, Project}
use ai_cli_session_db.Db.Listing.{sessions_of}
use ai_cli_session_db.Db.Dedup.{merge_into, merge_group, project_sessions, sort_desc, insert_desc}
use ai_cli_session_db.Db.Dedup.Sorted.{Distinct, All-sort_desc, Distinct-sort_desc}
use ai_cli_session_db.Db.Dedup.Removed.{
  AllDifferent, ids, IsWithout, IsWithout-none, IsWithout-step, IsWithout-append,
}
use ai_cli_session_db.Db.Dedup.Steps.{
  path_at, shown, path_at-retain, merged, step_merged, shown-merged,
}

pub All-weaken :
    {A : Type 0} (P Q : A → Type 0) (xs : List A) → ((x : A) → P x → Q x) → All P xs → All Q xs
All-weaken P Q [] f h = tt
All-weaken P Q (x ∷ xs) f (h, hs) = (f x h, All-weaken P Q xs f hs)

pub All-both :
    {A : Type 0} (P Q : A → Type 0) (xs : List A) → All P xs → All Q xs → All (λ x. P x × Q x) xs
All-both P Q [] h k = tt
All-both P Q (x ∷ xs) (h, hs) (k, ks) = ((h, k), All-both P Q xs hs ks)

-- The projects that a merge leaves, by their ids.
abbrev Left : List (ℕ × ℕ) → List Project → List Project → Type 0
Left others before after =
    (k : ℕ)
    → path_at k after ≡ (if any (λ (x : ℕ × ℕ). k == x.0) others then none else path_at k before)

merge_into_lem :
    (keep : ℕ) (q : String) (others : List (ℕ × ℕ)) (db : SessionDb)
    → path_at keep db.projects ≡ some q
    → All (λ (x : ℕ × ℕ). (keep ≢ x.0) × (path_at x.0 db.projects ≡ some q)) others
    → Distinct others
    → AllDifferent (ids db.projects)
    → (done : SessionDb) × (deleted : List ℕ) × (merge_into keep others db ≡ some (done, deleted))
      × (shown done ≡ shown db)
      × IsWithout db.projects deleted done.projects
      × Left others db.projects done.projects
unfolding merge_into
merge_into_lem keep q [] db at all d u =
    (db, [], refl, refl, IsWithout-none db.projects u, λ k. refl)
merge_into_lem keep q ((id, n) ∷ others) db at ((ne, here), all) (d, ds) u =
    let next = merged keep id db in
    let at' : path_at keep next.projects ≡ some q =
      path_at-retain keep id db.projects ∙ ground (arith, ne, at) in
    let all' : All (λ (x : ℕ × ℕ). (keep ≢ x.0) × (path_at x.0 next.projects ≡ some q)) others =
      All-weaken _ (λ (x : ℕ × ℕ). (keep ≢ x.0) × (path_at x.0 next.projects ≡ some q)) others
        (λ x h. (h.1.0, path_at-retain x.0 id db.projects ∙ ground (arith, h.0, h.1.1)))
        (All-both (λ (x : ℕ × ℕ). x.0 ≢ id) _ others d all) in
    let one = IsWithout-step id q db.projects u here in
    let (done, deleted, e, same, removed, left) =
      merge_into_lem keep q others next at' all' ds one.different in
    (
      done,
      id ∷ deleted,
      rw (step_merged keep id db ne, merge_into) (rw e refl),
      same ∙ shown-merged keep id db ne (at ∙ sym here),
      IsWithout-append (id ∷ []) deleted db.projects next.projects done.projects one removed,
      λ k. left k ∙ ground (arith, path_at-retain k id db.projects),
    )

abbrev has_pair : ℕ → List (ℕ × ℕ) → Bool
has_pair k xs = any (λ (x : ℕ × ℕ). k == x.0) xs

All-has_pair :
    (P : ℕ → Type 0) (k : ℕ) (xs : List (ℕ × ℕ))
    → All (λ (x : ℕ × ℕ). P x.0) xs
    → has_pair k xs ≡ true
    → P k
All-has_pair P k [] h e = cc
All-has_pair P k (x ∷ xs) (h, hs) e = elim (Bool-cases (k == x.0)) [
  | inl q ↦ subst P (sym ((==_iff k x.0).0 q)) h
  | inr q ↦ All-has_pair P k xs hs (rw q at e)
]

has_pair-insert_desc :
    (k : ℕ) (a : ℕ × ℕ) (xs : List (ℕ × ℕ)) → has_pair k (insert_desc a xs) ≡ has_pair k (a ∷ xs)
has_pair-insert_desc k a [] = refl
has_pair-insert_desc k a (x ∷ xs) = ground (arith, has_pair-insert_desc k a xs)

has_pair-sort_desc : (k : ℕ) (xs : List (ℕ × ℕ)) → has_pair k (sort_desc xs) ≡ has_pair k xs
has_pair-sort_desc k [] = refl
has_pair-sort_desc k (x ∷ xs) =
    has_pair-insert_desc k x (sort_desc xs) ∙ ap (λ b. (k == x.0) || b) (has_pair-sort_desc k xs)

has_pair_of_Has :
    (k : ℕ) (n : ℕ → ℕ) (ids : List ℕ) → Has k ids → has_pair k (map (λ i. (i, n i)) ids) ≡ true
has_pair_of_Has k n [] m = absurd m
has_pair_of_Has k n (i ∷ ids) (inl e) = ground (arith, e)
has_pair_of_Has k n (i ∷ ids) (inr m) = ground (arith, has_pair_of_Has k n ids m)

All-map :
    (P : ℕ → Type 0) (n : ℕ → ℕ) (ids : List ℕ)
    → All P ids
    → All (λ (x : ℕ × ℕ). P x.0) (map (λ i. (i, n i)) ids)
All-map P n [] h = tt
All-map P n (i ∷ ids) (h, hs) = (h, All-map P n ids hs)

Distinct-map : (n : ℕ → ℕ) (ids : List ℕ) → AllDifferent ids → Distinct (map (λ i. (i, n i)) ids)
Distinct-map n [] d = tt
Distinct-map n (i ∷ ids) (d, ds) = (All-map (λ j. j ≢ i) n ids d, Distinct-map n ids ds)

-- One project of a group is left.
abbrev pub OneLeft : List ℕ → List Project → Type 0
OneLeft ids ps = (keep : ℕ) × ((i : ℕ) → Has i ids → i ≢ keep → path_at i ps ≡ none)

-- A merge takes only projects of its path away.
abbrev pub Survives : String → List Project → List Project → Type 0
Survives q before after =
    (k : ℕ)
    → (path_at k after ≡ path_at k before)
      ⊎ ((path_at k after ≡ none) × (path_at k before ≡ some q))

-- Every path that had a project still has one.
abbrev pub KeepsPaths : List Project → List Project → Type 0
KeepsPaths before after =
    (k : ℕ) (q : String) → path_at k before ≡ some q → (j : ℕ) × (path_at j after ≡ some q)

no_pair : (k : ℕ) (xs : List (ℕ × ℕ)) → All (λ (x : ℕ × ℕ). x.0 ≢ k) xs → has_pair k xs ≡ false
no_pair k [] h = refl
no_pair k (x ∷ xs) (h, hs) = ground (arith, h, no_pair k xs hs)

ordered_group :
    (q : String) (xs : List (ℕ × ℕ)) (db : SessionDb)
    → All (λ (x : ℕ × ℕ). path_at x.0 db.projects ≡ some q) xs
    → Distinct xs
    → AllDifferent (ids db.projects)
    → (done : SessionDb) × (deleted : List ℕ) × (merge_group xs db ≡ some (done, deleted))
      × (shown done ≡ shown db)
      × IsWithout db.projects deleted done.projects
      × KeepsPaths db.projects done.projects
      × Survives q db.projects done.projects
      × ((keep : ℕ) × ((i : ℕ) → has_pair i xs ≡ true → i ≢ keep → path_at i done.projects ≡ none))
unfolding merge_group
ordered_group q [] db all d u = (
  db,
  [],
  refl,
  refl,
  IsWithout-none db.projects u,
  λ k p e. (k, e),
  λ k. inl refl,
  (0, λ i m n. cc),
)
ordered_group q ((keep, n) ∷ others) db (at, all) (d, ds) u =
    let (done, deleted, e, same, removed, left) =
      merge_into_lem keep q others db at
        (All-both (λ (x : ℕ × ℕ). keep ≢ x.0) (λ (x : ℕ × ℕ). path_at x.0 db.projects ≡ some q)
          others
          (All-weaken (λ (x : ℕ × ℕ). x.0 ≢ keep) (λ (x : ℕ × ℕ). keep ≢ x.0) others
            (λ x h s. h (sym s)) d)
          all)
        ds u in
    let survive : Survives q db.projects done.projects = λ k.
      elim (Bool-cases (has_pair k others)) [
        | inl m ↦
            inr (
              left k ∙ rw m refl,
              All-has_pair (λ i. path_at i db.projects ≡ some q) k others all m,
            )
        | inr m ↦ inl (left k ∙ rw m refl)
      ] in
    let kept : path_at keep done.projects ≡ some q = left keep ∙ rw (no_pair keep others d) at in
    (
      done,
      deleted,
      e,
      same,
      removed,
      λ k p h. elim (survive k) [ inl f ↦ (k, f ∙ h) | inr (f, g) ↦ (keep, kept ∙ sym g ∙ h) ],
      survive,
      (keep, λ i m ne. left i ∙ ground (arith, m, ne)),
    )

pub merge_group_lem :
    (q : String) (js : List ℕ) (db : SessionDb)
    → All (λ i. path_at i db.projects ≡ some q) js
    → AllDifferent js
    → AllDifferent (ids db.projects)
    → (done : SessionDb) × (deleted : List ℕ) × (merge_group (project_sessions js db) db
        ≡ some (done, deleted))
      × (shown done ≡ shown db)
      × IsWithout db.projects deleted done.projects
      × KeepsPaths db.projects done.projects
      × Survives q db.projects done.projects
      × OneLeft js done.projects
unfolding project_sessions
merge_group_lem q js db all d u =
    let n = λ (id : ℕ). length (sessions_of id db) in
    let pairs = map (λ (id : ℕ). (id, n id)) js in
    let (done, deleted, e, same, removed, covers, survive, (keep, gone)) =
      ordered_group q (sort_desc pairs) db
        (All-sort_desc (λ i. path_at i db.projects ≡ some q) pairs
          (All-map (λ i. path_at i db.projects ≡ some q) n js all))
        (Distinct-sort_desc pairs (Distinct-map n js d)) u in
    (
      done,
      deleted,
      e,
      same,
      removed,
      covers,
      survive,
      (keep, λ i m ne. gone i (has_pair-sort_desc i pairs ∙ has_pair_of_Has i n js m) ne),
    )
