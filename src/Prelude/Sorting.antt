-- ===== src/Prelude/Sorting.antt =====
-- `ORDER BY` a numeric column: a stable insertion sort, with its laws.
use ai_cli_session_db.Prelude.{
  ℕ, suc, ◌≤◌, ◌<◌, List, [], ◌∷◌, Bool, ◌≡◌, refl, ap, sym, ◌∙◌, ◌⊎◌, inl, inr, leb, ltb,
  if◌then◌else◌, retain, length, Has, All, Bool-cases, leb→le, arith,
}

module _ {A : Type 0} (key : A → ℕ) where
  abbrev pub insert : A → List A → List A
  insert a [] = a ∷ []
  insert a (x ∷ xs) = let rest = x ∷ insert a xs in if leb (key a) (key x) then a ∷ x ∷ xs else rest

  abbrev pub sort_by : List A → List A
  sort_by [] = []
  sort_by (x ∷ xs) = insert x (sort_by xs)

  -- `a` is at most every key of the list, and so on down the list.
  abbrev pub AtMost : ℕ → List A → Type 0
  AtMost k [] = Unit
  AtMost k (x ∷ xs) = (k ≤ key x) × AtMost k xs

  abbrev pub Sorted : List A → Type 0
  Sorted [] = Unit
  Sorted (x ∷ xs) = AtMost (key x) xs × Sorted xs

  AtMost-mono : (j k : ℕ) (xs : List A) → j ≤ k → AtMost k xs → AtMost j xs
  AtMost-mono j k [] h m = tt
  AtMost-mono j k (x ∷ xs) h m = (omega arith, AtMost-mono j k xs h m.1)

  AtMost-insert : (k : ℕ) (a : A) (xs : List A) → k ≤ key a → AtMost k xs → AtMost k (insert a xs)
  AtMost-insert k a [] h m = (h, tt)
  AtMost-insert k a (x ∷ xs) h m = ground (arith, AtMost-insert k a xs h m.1)

  Sorted-insert : (a : A) (xs : List A) → Sorted xs → Sorted (insert a xs)
  Sorted-insert a [] s = (tt, tt)
  Sorted-insert a (x ∷ xs) s = elim (Bool-cases (leb (key a) (key x))) [
    | inl e ↦
        let le = leb→le (key a) (key x) e in rw e ((le, AtMost-mono (key a) (key x) xs le s.0), s)
    | inr e ↦ rw e (AtMost-insert (key x) a xs (ground arith) s.0, Sorted-insert a xs s.1)
  ]

  pub Sorted-sort_by : (xs : List A) → Sorted (sort_by xs)
  Sorted-sort_by [] = tt
  Sorted-sort_by (x ∷ xs) = Sorted-insert x (sort_by xs) (Sorted-sort_by xs)

  insert_front : (a : A) (xs : List A) → AtMost (key a) xs → insert a xs ≡ a ∷ xs
  insert_front a [] m = refl
  insert_front a (x ∷ xs) m = ground arith

  AtMost-retain : (p : A → Bool) (k : ℕ) (xs : List A) → AtMost k xs → AtMost k (retain p xs)
  AtMost-retain p k [] m = tt
  AtMost-retain p k (x ∷ xs) m = ground (arith, AtMost-retain p k xs m.1)

  retain-insert :
      (p : A → Bool) (a : A) (xs : List A)
      → Sorted xs
      → retain p (insert a xs) ≡ (if p a then insert a (retain p xs) else retain p xs)
  retain-insert p a [] s = refl
  retain-insert p a (x ∷ xs) s = elim (Bool-cases (leb (key a) (key x))) [
    | inl e ↦
        let le = leb→le (key a) (key x) e in
        let all : AtMost (key a) (x ∷ xs) = (le, AtMost-mono (key a) (key x) xs le s.0) in
        rw e (
          ground (arith, insert_front a (retain p (x ∷ xs)) (AtMost-retain p (key a) (x ∷ xs) all)))
    | inr e ↦ rw e (ground (arith, retain-insert p a xs s.1))
  ]

  -- Selecting and ordering commute.
  pub sort_by-retain : (p : A → Bool) (xs : List A) → sort_by (retain p xs) ≡ retain p (sort_by xs)
  sort_by-retain p [] = refl
  sort_by-retain p (x ∷ xs) = elim (Bool-cases (p x)) [
    | inl e ↦ rw e (
        ap (insert x) (sort_by-retain p xs)
        ∙ sym (retain-insert p x (sort_by xs) (Sorted-sort_by xs) ∙ rw e))
    | inr e ↦
        rw e (sort_by-retain p xs ∙ sym (retain-insert p x (sort_by xs) (Sorted-sort_by xs) ∙ rw e))
  ]

module _ {A : Type 0} (key : A → ℕ) where
  Has-insert : (a x : A) (xs : List A) → Has x (insert key a xs) → (x ≡ a) ⊎ Has x xs
  Has-insert a x [] (inl e) = inl e
  Has-insert a x [] (inr m) = absurd m
  Has-insert a x (y ∷ ys) m = elim (Bool-cases (leb (key a) (key y))) [
    | inl e ↦ rw e at m
    | inr e ↦ elim (rw e at m) [
      | inl q ↦ inr (inl q)
      | inr n ↦ elim (Has-insert a x ys n) [ inl q ↦ inl q | inr k ↦ inr (inr k) ]
    ]
  ]

  -- Ordering makes up no members.
  pub Has-sort_by : (x : A) (xs : List A) → Has x (sort_by key xs) → Has x xs
  Has-sort_by x [] m = m
  Has-sort_by x (y ∷ ys) m = elim (Has-insert y x (sort_by key ys) m) [
    | inl e ↦ inl e
    | inr n ↦ inr (Has-sort_by x ys n)
  ]

  Has-insert_of : (a x : A) (xs : List A) → (x ≡ a) ⊎ Has x xs → Has x (insert key a xs)
  Has-insert_of a x [] m = m
  Has-insert_of a x (y ∷ ys) m = elim (Bool-cases (leb (key a) (key y))) [
    | inl e ↦ rw e m
    | inr e ↦ rw e (elim m [
      | inl q ↦ inr (Has-insert_of a x ys (inl q))
      | inr (inl q) ↦ inl q
      | inr (inr n) ↦ inr (Has-insert_of a x ys (inr n))
    ])
  ]

  -- Ordering loses no members.
  pub Has-sort_by_of : (x : A) (xs : List A) → Has x xs → Has x (sort_by key xs)
  Has-sort_by_of x [] m = m
  Has-sort_by_of x (y ∷ ys) (inl e) = Has-insert_of y x (sort_by key ys) (inl e)
  Has-sort_by_of x (y ∷ ys) (inr m) =
      Has-insert_of y x (sort_by key ys) (inr (Has-sort_by_of x ys m))

  pub length-insert : (a : A) (xs : List A) → length (insert key a xs) ≡ suc (length xs)
  length-insert a [] = refl
  length-insert a (x ∷ xs) = ground (arith, length-insert a xs)

  pub length-sort_by : (xs : List A) → length (sort_by key xs) ≡ length xs
  length-sort_by [] = refl
  length-sort_by (x ∷ xs) = length-insert x (sort_by key xs) ∙ ap suc (length-sort_by xs)

  -- The members above a bound.
  abbrev pub left_of : ℕ → List A → List A
  left_of k = retain (λ x. ltb k (key x))

  -- Strictly increasing keys.
  abbrev pub Increasing : List A → Type 0
  Increasing [] = Unit
  Increasing (x ∷ xs) = All (λ y. key x < key y) xs × Increasing xs

  pub left_of-All : (k : ℕ) (xs : List A) → All (λ y. k < key y) xs → left_of k xs ≡ xs
  left_of-All k [] h = refl
  left_of-All k (x ∷ xs) h = ground (arith, left_of-All k xs h.1)

  pub left_of-left_of : (j k : ℕ) (xs : List A) → j ≤ k → left_of k (left_of j xs) ≡ left_of k xs
  left_of-left_of j k [] h = refl
  left_of-left_of j k (x ∷ xs) h = ground (arith, left_of-left_of j k xs h)

  All-left_of :
      (n k : ℕ) (xs : List A) → All (λ y. n < key y) xs → All (λ y. n < key y) (left_of k xs)
  All-left_of n k [] h = tt
  All-left_of n k (x ∷ xs) h = ground (arith, All-left_of n k xs h.1)

  pub Increasing-left_of : (k : ℕ) (xs : List A) → Increasing xs → Increasing (left_of k xs)
  Increasing-left_of k [] h = tt
  Increasing-left_of k (x ∷ xs) h =
      ground (arith, Increasing-left_of k xs h.1, All-left_of (key x) k xs h.0)

  -- Beyond a member's key fewer are left.
  length-left_of-le :
      (j k : ℕ) (xs : List A) → j ≤ k → length (left_of k xs) ≤ length (left_of j xs)
  length-left_of-le j k [] h = omega arith
  length-left_of-le j k (x ∷ xs) h = ground (arith, length-left_of-le j k xs h)

  pub length-left_of-lt :
      (j k : ℕ) (x : A) (xs : List A)
      → Has x xs
      → j < key x
      → key x ≤ k
      → length (left_of k xs) < length (left_of j xs)
  length-left_of-lt j k x [] m lo hi = absurd m
  length-left_of-lt j k x (y ∷ ys) (inl e) lo hi =
      ground (arith, length-left_of-le j k ys, ap key e)
  length-left_of-lt j k x (y ∷ ys) (inr n) lo hi =
      ground (arith, length-left_of-lt j k x ys n lo hi)
