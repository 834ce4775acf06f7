-- ===== src/Search/Like.antt =====
-- src/search.rs, `escape_like_pattern`, for `LIKE … ESCAPE '\'`.
use ai_cli_session_db.Prelude.{
  ℕ, Text, List, [], ◌∷◌, ◌++◌, Bool, true, false, map, ◌≡◌, refl, inl, inr, ◌==◌, if◌then◌else◌,
  Bool-cases, arith,
}

-- `str::replace` of one character.
abbrev pub replace : ℕ → Text → Text → Text
replace c by [] = []
replace c by (d ∷ ds) = let rest = replace c by ds in if d == c then by ++ rest else d ∷ rest

abbrev pub backslash : ℕ
backslash = 92

abbrev pub percent : ℕ
percent = 37

abbrev pub underscore : ℕ
underscore = 95

unfoldable pub escape_like_pattern : Text → Text
escape_like_pattern s =
    replace underscore (backslash ∷ underscore ∷ []) (
      replace percent (backslash ∷ percent ∷ []) (replace backslash (backslash ∷ backslash ∷ []) s))

-- What a pattern means to SQLite.
pub data LikeToken : Type 0 where
  literal : ℕ → LikeToken
  any_text any_char : LikeToken

-- The flag is that the last character was the escape.
abbrev pub like_tokens : Bool → Text → List LikeToken
like_tokens escaped [] = []
like_tokens true (c ∷ cs) = literal c ∷ like_tokens false cs
like_tokens false (c ∷ cs) = elim (c == backslash) [
  | true ↦ like_tokens true cs
  | false ↦
      (if c == percent then any_text else if c == underscore then any_char else literal c)
      ∷ like_tokens false cs
]

-- A pattern that was escaped stands for the text itself: every character is literal.
pub like_tokens-escape : (s : Text) → like_tokens false (escape_like_pattern s) ≡ map literal s
unfolding escape_like_pattern
like_tokens-escape [] = refl
like_tokens-escape (c ∷ cs) = elim (Bool-cases (c == backslash)) [
  | inl e ↦ ground (arith, e, like_tokens-escape cs)
  | inr e ↦ elim (Bool-cases (c == percent)) [
    | inl f ↦ ground (arith, e, f, like_tokens-escape cs)
    | inr f ↦ elim (Bool-cases (c == underscore)) [
      | inl g ↦ ground (arith, e, f, g, like_tokens-escape cs)
      | inr g ↦ ground (arith, e, f, g, like_tokens-escape cs)
    ]
  ]
]
