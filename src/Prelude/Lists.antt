-- ===== src/Prelude/Lists.antt =====
-- Lists measured by native numbers, `Vec::retain` and membership, with their laws.
use Prim.Native.Nat.{ℕ, zero, suc, ◌+◌, ◌-◌, ◌≤◌, min}
use mathlib.Core.Path.{◌≡◌, refl, ap, sym, ◌∙◌}
use mathlib.Core.Bool.{Bool, true, false, ◌||◌}
use mathlib.Core.Logic.{◌⊎◌, inl, inr}
use mathlib.Core.List.{List, [], ◌∷◌, ◌++◌, map}
use mathlib.Core.Option.{Option, none, some}
use native.Mathlib.Omega.{arith}
use ai_cli_session_db.Prelude.Tests.{if◌then◌else◌, Bool-cases}

module _ {ℓ} {A : Type ℓ} where
  abbrev pub length : List A → ℕ
  length [] = 0
  length (x ∷ xs) = suc (length xs)

  abbrev pub take : ℕ → List A → List A
  take zero xs = []
  take (suc n) [] = []
  take (suc n) (x ∷ xs) = x ∷ take n xs

  abbrev pub drop : ℕ → List A → List A
  drop zero xs = xs
  drop (suc n) [] = []
  drop (suc n) (x ∷ xs) = drop n xs

  abbrev pub is_empty : List A → Bool
  is_empty [] = true
  is_empty (x ∷ xs) = false

  -- `Vec::retain`, and `Iterator::filter`.
  abbrev pub retain : (A → Bool) → List A → List A
  retain p [] = []
  retain p (x ∷ xs) = let rest = retain p xs in if p x then x ∷ rest else rest

  -- `Iterator::any`.
  abbrev pub any : (A → Bool) → List A → Bool
  any p [] = false
  any p (x ∷ xs) = p x || any p xs

  abbrev pub All {κ} : (A → Type κ) → List A → Type κ
  All P [] = Unit
  All P (x ∷ xs) = P x × All P xs

-- Membership, by recursion.
abbrev pub Has : {A : Type 0} → A → List A → Type 0
Has x [] = ⊥
Has x (y ∷ ys) = (x ≡ y) ⊎ Has x ys

module _ {ℓ} {A : Type ℓ} where
  pub length-append : (xs ys : List A) → length (xs ++ ys) ≡ length xs + length ys
  length-append [] ys = omega arith
  length-append (x ∷ xs) ys = omega (arith, length-append xs ys)

  pub length-take : (n : ℕ) (xs : List A) → length (take n xs) ≡ min n (length xs)
  length-take zero xs = omega arith
  length-take (suc n) [] = omega arith
  length-take (suc n) (x ∷ xs) = omega (arith, length-take n xs)

  pub length-drop : (n : ℕ) (xs : List A) → length (drop n xs) ≡ length xs - n
  length-drop zero xs = omega arith
  length-drop (suc n) [] = omega arith
  length-drop (suc n) (x ∷ xs) = omega (arith, length-drop n xs)

  pub take-append-drop : (n : ℕ) (xs : List A) → take n xs ++ drop n xs ≡ xs
  take-append-drop zero xs = refl
  take-append-drop (suc n) [] = refl
  take-append-drop (suc n) (x ∷ xs) = ap (◌∷◌ x) (take-append-drop n xs)

  pub take_all : (n : ℕ) (xs : List A) → length xs ≤ n → take n xs ≡ xs
  take_all zero [] h = refl
  take_all zero (x ∷ xs) h = absurd (omega arith)
  take_all (suc n) [] h = refl
  take_all (suc n) (x ∷ xs) h = ap (◌∷◌ x) (take_all n xs (omega arith))

  pub drop_all : (n : ℕ) (xs : List A) → length xs ≤ n → drop n xs ≡ []
  drop_all zero [] h = refl
  drop_all zero (x ∷ xs) h = absurd (omega arith)
  drop_all (suc n) [] h = refl
  drop_all (suc n) (x ∷ xs) h = drop_all n xs (omega arith)

  pub length-retain-le : (p : A → Bool) (xs : List A) → length (retain p xs) ≤ length xs
  length-retain-le p [] = omega arith
  length-retain-le p (x ∷ xs) = ground (arith, length-retain-le p xs)

module _ {A : Type 0} where
  -- Filters that agree on the members of a list give one result.
  pub retain_ext :
      (p q : A → Bool) (xs : List A) → ((x : A) → Has x xs → p x ≡ q x) → retain p xs ≡ retain q xs
  retain_ext p q [] h = refl
  retain_ext p q (x ∷ xs) h = ground (arith, h x (inl refl), retain_ext p q xs (λ y m. h y (inr m)))

  pub retain_idem : (p : A → Bool) (xs : List A) → retain p (retain p xs) ≡ retain p xs
  retain_idem p [] = refl
  retain_idem p (x ∷ xs) = elim (Bool-cases (p x)) [
    | inl e ↦ rw (e, e) (ap (◌∷◌ x) (retain_idem p xs))
    | inr e ↦ rw e (retain_idem p xs)
  ]

  -- `retain` keeps exactly the members that pass.
  pub Has-retain :
      (p : A → Bool) (x : A) (xs : List A) → Has x (retain p xs) → Has x xs × (p x ≡ true)
  Has-retain p x [] m = absurd m
  Has-retain p x (y ∷ ys) m = elim (Bool-cases (p y)) [
    | inl e ↦ elim (rw e at m) [
      | inl q ↦ (inl q, rw q e)
      | inr n ↦ let r = Has-retain p x ys n in (inr r.0, r.1)
    ]
    | inr e ↦ let r = Has-retain p x ys (rw e at m) in (inr r.0, r.1)
  ]

  pub Has-retain_of :
      (p : A → Bool) (x : A) (xs : List A) → Has x xs → p x ≡ true → Has x (retain p xs)
  Has-retain_of p x [] m e = absurd m
  Has-retain_of p x (y ∷ ys) (inl q) e = rw (sym (ap p q) ∙ e) (inl q)
  Has-retain_of p x (y ∷ ys) (inr n) e = elim (Bool-cases (p y)) [
    | inl d ↦ rw d (inr (Has-retain_of p x ys n e))
    | inr d ↦ rw d (Has-retain_of p x ys n e)
  ]

  pub any-Has : (p : A → Bool) (xs : List A) → any p xs ≡ true → (x : A) × Has x xs × (p x ≡ true)
  any-Has p [] e = cc
  any-Has p (x ∷ xs) e = elim (Bool-cases (p x)) [
    | inl d ↦ (x, inl refl, d)
    | inr d ↦ let r = any-Has p xs (rw d at e) in (r.0, inr r.1, r.2)
  ]

  pub any_of_Has : (p : A → Bool) (x : A) (xs : List A) → Has x xs → p x ≡ true → any p xs ≡ true
  any_of_Has p x [] m e = absurd m
  any_of_Has p x (y ∷ ys) (inl q) e = rw (sym (ap p q) ∙ e)
  any_of_Has p x (y ∷ ys) (inr n) e = ground (arith, any_of_Has p x ys n e)

module _ {ℓ} {A : Type ℓ} where
  abbrev pub replicate : ℕ → A → List A
  replicate zero a = []
  replicate (suc n) a = a ∷ replicate n a

  -- `Option::is_some_and`.
  abbrev pub is_some_and : Option A → (A → Bool) → Bool
  is_some_and none p = false
  is_some_and (some a) p = p a

pub Has-map :
    {A B : Type 0} (f : A → B) (y : B) (xs : List A)
    → Has y (map f xs)
    → (x : A) × Has x xs × (y ≡ f x)
Has-map f y [] m = absurd m
Has-map f y (x ∷ xs) (inl e) = (x, inl refl, e)
Has-map f y (x ∷ xs) (inr m) = let r = Has-map f y xs m in (r.0, inr r.1, r.2)

pub Has-take : {A : Type 0} (n : ℕ) (x : A) (xs : List A) → Has x (take n xs) → Has x xs
Has-take zero x xs m = absurd m
Has-take (suc n) x [] m = absurd m
Has-take (suc n) x (y ∷ ys) (inl e) = inl e
Has-take (suc n) x (y ∷ ys) (inr m) = inr (Has-take n x ys m)

pub Has-append : {A : Type 0} (x : A) (xs ys : List A) → Has x (xs ++ ys) → Has x xs ⊎ Has x ys
Has-append x [] ys m = inr m
Has-append x (y ∷ xs) ys (inl e) = inl (inl e)
Has-append x (y ∷ xs) ys (inr m) = elim (Has-append x xs ys m) [
  | inl h ↦ inl (inr h)
  | inr h ↦ inr h
]

pub retain_all :
    {A : Type 0} (p : A → Bool) (xs : List A) → ((x : A) → Has x xs → p x ≡ true) → retain p xs ≡ xs
retain_all p [] h = refl
retain_all p (x ∷ xs) h = rw (h x (inl refl)) (ap (◌∷◌ x) (retain_all p xs (λ y m. h y (inr m))))
