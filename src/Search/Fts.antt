-- ===== src/Search/Fts.antt =====
-- src/search.rs, `escape_fts5_query`: each word of a query as a quoted FTS5 string, joined by OR.
use ai_cli_session_db.Prelude.{
  Bool, ◌||◌, ℕ, Text, List, [], ◌∷◌, ◌++◌, true, false, map, ◌≡◌, refl, sym, ap, ◌∙◌, inl, inr,
  ◌==◌, Bool-cases, arith,
}
use mathlib.Core.List.{append_assoc, append-nil}
use ai_cli_session_db.Prelude.Lines.{split_whitespace}
use ai_cli_session_db.Search.Like.{replace}

abbrev pub quote : ℕ
quote = 34

-- A double quote inside a word is doubled.
abbrev pub quoted : Text → Text
quoted word = quote ∷ (replace quote (quote ∷ quote ∷ []) word ++ quote ∷ [])

-- `terms.join(" OR ")`.
abbrev pub join_or : List Text → Text
join_or [] = []
join_or (t ∷ []) = t
join_or (t ∷ u ∷ us) = t ++ (32 ∷ 79 ∷ 82 ∷ 32 ∷ join_or (u ∷ us))

unfoldable pub escape_fts5_query : Text → Text
escape_fts5_query query = elim (map quoted (split_whitespace query)) [
  | [] ↦ []
  | t ∷ [] ↦ t
  | t ∷ u ∷ us ↦ join_or (t ∷ u ∷ us)
]

-- What FTS5 reads of a query: strings in quotes and barewords. Any other sign stands in a bareword
-- here, where FTS5 would refuse the query or read an operator.
pub data Token : Type 0 where
  string bareword : Text → Token

-- Outside of both, inside of a string, behind a quote that ends it or is the first of two, and inside
-- of a bareword.
pub data Scan : Type 0 where
  outside : Scan
  inside ended in_word : Text → Scan

-- `fts5ExprIsspace`: space, tab, line feed and carriage return.
abbrev pub is_blank : ℕ → Bool
is_blank c = c == 32 || (c == 9 || (c == 10 || c == 13))

abbrev pub fts5_tokens : Scan → Text → List Token
fts5_tokens outside [] = []
fts5_tokens (inside s) [] = []
fts5_tokens (ended s) [] = string s ∷ []
fts5_tokens (in_word w) [] = bareword w ∷ []
fts5_tokens outside (c ∷ cs) = elim (c == quote) [
  | true ↦ fts5_tokens (inside []) cs
  | false ↦ elim (is_blank c) [
    | true ↦ fts5_tokens outside cs
    | false ↦ fts5_tokens (in_word (c ∷ [])) cs
  ]
]
fts5_tokens (inside s) (c ∷ cs) = elim (c == quote) [
  | true ↦ fts5_tokens (ended s) cs
  | false ↦ fts5_tokens (inside (s ++ c ∷ [])) cs
]
fts5_tokens (ended s) (c ∷ cs) = elim (c == quote) [
  | true ↦ fts5_tokens (inside (s ++ quote ∷ [])) cs
  | false ↦ elim (is_blank c) [
    | true ↦ string s ∷ fts5_tokens outside cs
    | false ↦ string s ∷ fts5_tokens (in_word (c ∷ [])) cs
  ]
]
fts5_tokens (in_word w) (c ∷ cs) = elim (c == quote) [
  | true ↦ bareword w ∷ fts5_tokens (inside []) cs
  | false ↦ elim (is_blank c) [
    | true ↦ bareword w ∷ fts5_tokens outside cs
    | false ↦ fts5_tokens (in_word (w ++ c ∷ [])) cs
  ]
]

-- "OR".
abbrev pub or_word : Text
or_word = 79 ∷ 82 ∷ []

-- The tokens of a query that asks for one of the texts: strings with the operator OR between them.
abbrev pub alternatives : List Text → List Token
alternatives [] = []
alternatives (w ∷ []) = string w ∷ []
alternatives (w ∷ v ∷ vs) = string w ∷ bareword or_word ∷ alternatives (v ∷ vs)

abbrev doubled : Text → Text
doubled word = replace quote (quote ∷ quote ∷ []) word

doubled_plain : (c : ℕ) (cs : Text) → (c == quote) ≡ false → doubled (c ∷ cs) ≡ c ∷ doubled cs
doubled_plain c cs e = rw e refl

inside_plain :
    (s : Text) (c : ℕ) (cs : Text)
    → (c == quote) ≡ false
    → fts5_tokens (inside s) (c ∷ cs) ≡ fts5_tokens (inside (s ++ c ∷ [])) cs
inside_plain s c cs e = rw (e, fts5_tokens) refl

-- A word inside a string is read back up to the quote that ends it.
inside_word :
    (s word rest : Text)
    → fts5_tokens (inside s) (doubled word ++ quote ∷ rest) ≡ fts5_tokens (ended (s ++ word)) rest
inside_word s [] rest = ap (λ t. fts5_tokens (ended t) rest) (sym (append-nil s))
inside_word s (c ∷ cs) rest = elim (Bool-cases (c == quote)) [
  | inl e ↦ rw e (
      inside_word (s ++ quote ∷ []) cs rest
      ∙ ap (λ t. fts5_tokens (ended t) rest)
          (append_assoc s (quote ∷ []) cs ∙ ap (λ d. s ++ d ∷ cs) (ground (arith, e))))
  | inr e ↦
      ap (λ t. fts5_tokens (inside s) (t ++ quote ∷ rest)) (doubled_plain c cs e)
      ∙ inside_plain s c (doubled cs ++ quote ∷ rest) e
      ∙ inside_word (s ++ c ∷ []) cs rest
      ∙ ap (λ t. fts5_tokens (ended t) rest) (append_assoc s (c ∷ []) cs)
]

read_back : (ws : List Text) → fts5_tokens outside (join_or (map quoted ws)) ≡ alternatives ws
read_back [] = refl
read_back (w ∷ []) = inside_word [] w []
read_back (w ∷ v ∷ vs) =
    ap (λ t. fts5_tokens (inside []) t)
      (append_assoc (doubled w) (quote ∷ []) (32 ∷ 79 ∷ 82 ∷ 32 ∷ join_or (map quoted (v ∷ vs))))
    ∙ inside_word [] w (32 ∷ 79 ∷ 82 ∷ 32 ∷ join_or (map quoted (v ∷ vs)))
    ∙ ap (λ ts. string w ∷ bareword or_word ∷ ts) (read_back (v ∷ vs))

-- FTS5 reads the escaped query as the words of the query, each as one string, whatever characters they
-- hold, with the operator OR between them and nothing else.
pub fts5_tokens-escape :
    (query : Text)
    → fts5_tokens outside (escape_fts5_query query) ≡ alternatives (split_whitespace query)
unfolding escape_fts5_query
fts5_tokens-escape query = go (split_whitespace query)
  where
    go :
        (ws : List Text)
        → fts5_tokens outside
            (elim (map quoted ws) [ [] ↦ [] | t ∷ [] ↦ t | t ∷ u ∷ us ↦ join_or (t ∷ u ∷ us) ])
          ≡ alternatives ws
    go [] = refl
    go (w ∷ []) = read_back (w ∷ [])
    go (w ∷ v ∷ vs) = read_back (w ∷ v ∷ vs)
