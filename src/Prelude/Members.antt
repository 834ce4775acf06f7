-- ===== src/Prelude/Members.antt =====
-- Members of lists that are appended, mapped, cut off and reversed.
use Prim.Native.Nat.{ℕ, zero, suc}
use mathlib.Core.Path.{◌≡◌, refl, ap, ◌∙◌}
use mathlib.Core.Logic.{inl, inr}
use mathlib.Core.List.{List, [], ◌∷◌, ◌++◌, map, reverse, reverse-append}
use native.Mathlib.Omega.{arith}
use ai_cli_session_db.Prelude.Lists.{Has, Has-append, drop, length, length-append}

pub Has-append_left : {A : Type 0} (x : A) (xs ys : List A) → Has x xs → Has x (xs ++ ys)
Has-append_left x [] ys m = absurd m
Has-append_left x (z ∷ zs) ys (inl e) = inl e
Has-append_left x (z ∷ zs) ys (inr m) = inr (Has-append_left x zs ys m)

pub Has-append_right : {A : Type 0} (x : A) (xs ys : List A) → Has x ys → Has x (xs ++ ys)
Has-append_right x [] ys m = m
Has-append_right x (z ∷ zs) ys m = inr (Has-append_right x zs ys m)

pub Has-map_of : {A B : Type 0} (f : A → B) (x : A) (xs : List A) → Has x xs → Has (f x) (map f xs)
Has-map_of f x [] m = absurd m
Has-map_of f x (y ∷ ys) (inl e) = inl (ap f e)
Has-map_of f x (y ∷ ys) (inr m) = inr (Has-map_of f x ys m)

pub length-map : {A B : Type 0} (f : A → B) (xs : List A) → length (map f xs) ≡ length xs
length-map f [] = refl
length-map f (x ∷ xs) = ap suc (length-map f xs)

pub Has-drop : {A : Type 0} (n : ℕ) (x : A) (xs : List A) → Has x (drop n xs) → Has x xs
Has-drop zero x xs m = m
Has-drop (suc n) x [] m = absurd m
Has-drop (suc n) x (y ∷ ys) m = inr (Has-drop n x ys m)

pub Has-reverse : {A : Type 0} (x : A) (xs : List A) → Has x (reverse xs) → Has x xs
Has-reverse x [] m = m
Has-reverse x (y ∷ ys) m =
    elim (Has-append x (reverse ys) (y ∷ []) (rw (reverse-append (y ∷ []) ys) at m)) [
      | inl h ↦ inr (Has-reverse x ys h)
      | inr (inl e) ↦ inl e
      | inr (inr n) ↦ absurd n
    ]

pub Has-reverse_of : {A : Type 0} (x : A) (xs : List A) → Has x xs → Has x (reverse xs)
Has-reverse_of x [] m = m
Has-reverse_of x (y ∷ ys) (inl e) =
    rw (reverse-append (y ∷ []) ys) (Has-append_right x (reverse ys) (y ∷ []) (inl e))
Has-reverse_of x (y ∷ ys) (inr m) =
    rw (reverse-append (y ∷ []) ys)
      (Has-append_left x (reverse ys) (y ∷ []) (Has-reverse_of x ys m))

pub length-reverse : {A : Type 0} (xs : List A) → length (reverse xs) ≡ length xs
length-reverse [] = refl
length-reverse (x ∷ xs) =
    rw (reverse-append (x ∷ []) xs)
      (length-append (reverse xs) (x ∷ []) ∙ omega (arith, length-reverse xs))
