-- ===== src/Prelude/Keys.antt =====
-- Sets of string keys (`HashSet<String>`), read only by `contains`.
use mathlib.Core.Path.{◌≡◌, refl, sym, ◌∙◌, ap}
use mathlib.Core.Bool.{Bool, true}
use mathlib.Core.Logic.{inl, inr}
use mathlib.Core.List.{List, [], ◌∷◌, map}
use Prim.Native.String.{String}
use ai_cli_session_db.Prelude.Strings.{str_eq, str_eq_iff, str_eq_refl}
use ai_cli_session_db.Prelude.Lists.{
  any, retain, Has, Has-retain, Has-retain_of, any-Has, any_of_Has,
}

abbrev pub contains : List String → String → Bool
contains set key = any (λ k. str_eq k key) set

module _ {A : Type 0} (key : A → String) where
  keys-Has : (k : String) (xs : List A) → Has k (map key xs) → (x : A) × Has x xs × (key x ≡ k)
  keys-Has k [] m = absurd m
  keys-Has k (x ∷ xs) (inl e) = (x, inl refl, sym e)
  keys-Has k (x ∷ xs) (inr n) = let r = keys-Has k xs n in (r.0, inr r.1, r.2)

  keys_of_Has : (x : A) (xs : List A) → Has x xs → Has (key x) (map key xs)
  keys_of_Has x [] m = absurd m
  keys_of_Has x (y ∷ ys) (inl e) = inl (ap key e)
  keys_of_Has x (y ∷ ys) (inr n) = inr (keys_of_Has x ys n)

  -- A key of the members that pass comes from one of them.
  pub contains-Has :
      (p : A → Bool) (xs : List A) (k : String)
      → contains (map key (retain p xs)) k ≡ true
      → (x : A) × Has x xs × (p x ≡ true) × (key x ≡ k)
  contains-Has p xs k e =
      let hit = any-Has (λ j. str_eq j k) (map key (retain p xs)) e in
      let from = keys-Has hit.0 (retain p xs) hit.1 in
      let kept = Has-retain p from.0 xs from.1 in
      (from.0, kept.0, kept.1, from.2 ∙ (str_eq_iff hit.0 k).0 hit.2)

  -- And each of them has its key in the set.
  pub contains_of_Has :
      (p : A → Bool) (xs : List A) (x : A)
      → Has x xs
      → p x ≡ true
      → contains (map key (retain p xs)) (key x) ≡ true
  contains_of_Has p xs x m e =
      any_of_Has (λ j. str_eq j (key x)) (key x) (map key (retain p xs))
        (keys_of_Has x (retain p xs) (Has-retain_of p x xs m e)) (str_eq_refl (key x))
