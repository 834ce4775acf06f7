-- ===== src/Db/Dedup/Query.antt =====
-- src/db.rs, deduplicate_projects: what the query for duplicate paths returns.
use ai_cli_session_db.Prelude.{
  ℕ, String, List, [], ◌∷◌, Option, some, not, ◌≡◌, ◌≢◌, ap, map, retain, ◌==◌, arith, true, false,
  All, inl, inr, Bool, Bool-cases, length, ltb, str_eq, str_eq_iff,
}
use ai_cli_session_db.Db.{Project}
use ai_cli_session_db.Db.Dedup.{ids_of, paths_of}
use ai_cli_session_db.Db.Dedup.Steps.{path_at}
use ai_cli_session_db.Db.Dedup.Removed.{AllDifferent, ids}
use ai_cli_session_db.Db.Dedup.Merge.{All-weaken, All-both}
use ai_cli_session_db.Db.Dedup.Groups.{Grouped}

All-ids_of :
    (P : ℕ → Type 0) (q : String) (ps : List Project) → All P (ids ps) → All P (ids_of q ps)
All-ids_of P q [] h = tt
All-ids_of P q (p ∷ ps) (h, hs) = elim (Bool-cases (str_eq p.path q)) [
  | inl e ↦ rw e (h, All-ids_of P q ps hs)
  | inr e ↦ rw e (All-ids_of P q ps hs)
]

AllDifferent-ids_of :
    (q : String) (ps : List Project) → AllDifferent (ids ps) → AllDifferent (ids_of q ps)
AllDifferent-ids_of q [] d = tt
AllDifferent-ids_of q (p ∷ ps) (d, ds) = elim (Bool-cases (str_eq p.path q)) [
  | inl e ↦ rw e (All-ids_of (λ j. j ≢ p.id) q ps d, AllDifferent-ids_of q ps ds)
  | inr e ↦ rw e (AllDifferent-ids_of q ps ds)
]

-- Past the head of the table.
path_at_tail :
    (p : Project) (ps : List Project) (P : Option String → Type 0) (js : List ℕ)
    → All (λ j. j ≢ p.id) js
    → All (λ j. P (path_at j ps)) js
    → All (λ j. P (path_at j (p ∷ ps))) js
path_at_tail p ps P js d h =
    All-weaken (λ j. (j ≢ p.id) × P (path_at j ps)) (λ j. P (path_at j (p ∷ ps))) js
      (λ j g. let e : (p.id == j) ≡ false = ground (arith, g.0) in rw e g.1)
      (All-both (λ j. j ≢ p.id) (λ j. P (path_at j ps)) js d h)

path_at-ids_of :
    (q : String) (ps : List Project)
    → AllDifferent (ids ps)
    → All (λ i. path_at i ps ≡ some q) (ids_of q ps)
path_at-ids_of q [] d = tt
path_at-ids_of q (p ∷ ps) (d, ds) =
    let rest =
      path_at_tail p ps (λ o. o ≡ some q) (ids_of q ps) (All-ids_of (λ j. j ≢ p.id) q ps d)
        (path_at-ids_of q ps ds) in
    elim (Bool-cases (str_eq p.path q)) [
      | inl e ↦
          let same : (p.id == p.id) ≡ true = ground arith in
          let path : p.path ≡ q = (str_eq_iff p.path q).0 e in rw e (rw same (ap some path), rest)
      | inr e ↦ rw e rest
    ]

-- The paths of the query are distinct.
abbrev pub Apart : List String → Type 0
Apart [] = Unit
Apart (q ∷ qs) = All (λ r. r ≢ q) qs × Apart qs

All-retain :
    (P : String → Type 0) (t : String → Bool) (qs : List String) → All P qs → All P (retain t qs)
All-retain P t [] h = tt
All-retain P t (q ∷ qs) (h, hs) = elim (Bool-cases (t q)) [
  | inl e ↦ rw e (h, All-retain P t qs hs)
  | inr e ↦ rw e (All-retain P t qs hs)
]

All-passed : (t : String → Bool) (qs : List String) → All (λ r. t r ≡ true) (retain t qs)
All-passed t [] = tt
All-passed t (q ∷ qs) = elim (Bool-cases (t q)) [
  | inl e ↦ rw e (e, All-passed t qs)
  | inr e ↦ rw e (All-passed t qs)
]

Apart-retain : (t : String → Bool) (qs : List String) → Apart qs → Apart (retain t qs)
Apart-retain t [] a = tt
Apart-retain t (q ∷ qs) (h, a) = elim (Bool-cases (t q)) [
  | inl e ↦ rw e (All-retain (λ r. r ≢ q) t qs h, Apart-retain t qs a)
  | inr e ↦ rw e (Apart-retain t qs a)
]

pub Apart-paths_of : (ps : List Project) → Apart (paths_of ps)
Apart-paths_of [] = tt
Apart-paths_of (p ∷ ps) =
    let other = λ (q : String). not (str_eq q p.path) in
    (
      All-weaken (λ r. other r ≡ true) (λ r. r ≢ p.path) (retain other (paths_of ps))
          (λ r e s. ground (arith, e, (str_eq_iff r p.path).1 s)) (All-passed other (paths_of ps)),
      Apart-retain other (paths_of ps) (Apart-paths_of ps),
    )

pub Grouped-of_paths :
    (ps : List Project) (qs : List String)
    → AllDifferent (ids ps)
    → Apart qs
    → Grouped ps (retain (λ js. ltb 1 (length js)) (map (λ q. ids_of q ps) qs))
Grouped-of_paths ps [] d a = tt
Grouped-of_paths ps (q ∷ qs) d (h, a) = elim (Bool-cases (ltb 1 (length (ids_of q ps)))) [
  | inl e ↦ rw e (
    (q, path_at-ids_of q ps d, AllDifferent-ids_of q ps d, others qs h),
    Grouped-of_paths ps qs d a,
  )
  | inr e ↦ rw e (Grouped-of_paths ps qs d a)
]
  where
    others :
        (rs : List String)
        → All (λ r. r ≢ q) rs
        → All
            (λ js. All (λ i. path_at i ps ≢ some q) js)
            (retain (λ js. ltb 1 (length js)) (map (λ r. ids_of r ps) rs))
    others [] n = tt
    others (r ∷ rs) (n, ns) = elim (Bool-cases (ltb 1 (length (ids_of r ps)))) [
      | inl f ↦ rw f (
        All-weaken (λ i. path_at i ps ≡ some r) (λ i. path_at i ps ≢ some q) (ids_of r ps)
            (λ i g s. n (ground (arith, g, s))) (path_at-ids_of r ps d),
        others rs ns,
      )
      | inr f ↦ rw f (others rs ns)
    ]
