-- ===== src/Db/Dedup/Sorted.antt =====
-- src/db.rs, deduplicate_projects: the order of a group by its sessions keeps the ids of the group.
use ai_cli_session_db.Prelude.{ℕ, List, [], ◌∷◌, ◌≢◌, All, leb, Bool-cases, inl, inr, sym}
use ai_cli_session_db.Db.Dedup.{insert_desc, sort_desc}

-- The first components are distinct.
abbrev pub Distinct : List (ℕ × ℕ) → Type 0
Distinct [] = Unit
Distinct (x ∷ xs) = All (λ (y : ℕ × ℕ). y.0 ≢ x.0) xs × Distinct xs

All-insert_desc :
    (P : ℕ → Type 0) (a : ℕ × ℕ) (xs : List (ℕ × ℕ))
    → P a.0
    → All (λ (x : ℕ × ℕ). P x.0) xs
    → All (λ (x : ℕ × ℕ). P x.0) (insert_desc a xs)
All-insert_desc P a [] h k = (h, tt)
All-insert_desc P a (x ∷ xs) h (k, ks) = elim (Bool-cases (leb x.1 a.1)) [
  | inl e ↦ rw e (h, (k, ks))
  | inr e ↦ rw e (k, All-insert_desc P a xs h ks)
]

pub All-sort_desc :
    (P : ℕ → Type 0) (xs : List (ℕ × ℕ))
    → All (λ (x : ℕ × ℕ). P x.0) xs
    → All (λ (x : ℕ × ℕ). P x.0) (sort_desc xs)
All-sort_desc P [] h = tt
All-sort_desc P (x ∷ xs) (h, hs) = All-insert_desc P x (sort_desc xs) h (All-sort_desc P xs hs)

Distinct-insert_desc :
    (a : ℕ × ℕ) (xs : List (ℕ × ℕ))
    → All (λ (y : ℕ × ℕ). y.0 ≢ a.0) xs
    → Distinct xs
    → Distinct (insert_desc a xs)
Distinct-insert_desc a [] h d = (tt, tt)
Distinct-insert_desc a (x ∷ xs) (h, hs) (d, ds) = elim (Bool-cases (leb x.1 a.1)) [
  | inl e ↦ rw e ((h, hs), (d, ds))
  | inr e ↦
      rw e (All-insert_desc (λ k. k ≢ x.0) a xs (λ q. h (sym q)) d, Distinct-insert_desc a xs hs ds)
]

pub Distinct-sort_desc : (xs : List (ℕ × ℕ)) → Distinct xs → Distinct (sort_desc xs)
Distinct-sort_desc [] d = tt
Distinct-sort_desc (x ∷ xs) (d, ds) =
    Distinct-insert_desc x (sort_desc xs) (All-sort_desc (λ k. k ≢ x.0) xs d)
      (Distinct-sort_desc xs ds)
