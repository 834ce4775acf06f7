-- ===== src/Search/Full/Scope.antt =====
-- src/search.rs: what the patterns of a search stand for.
use ai_cli_session_db.Prelude.{
  String, Text, List, [], ◌∷◌, ◌++◌, Bool, true, false, ◌&&◌, ◌||◌, any, map, ◌≡◌, refl, ap, ◌∙◌,
  inl, inr, codes, ◌==◌, Bool-cases, arith,
}
use ai_cli_session_db.Db.Listing.{like, pattern_tokens, fold_case}
use ai_cli_session_db.Db.Listing.Prefix.{IsPlain, starts_with, like-starts_with}
use ai_cli_session_db.Search.Like.{
  escape_like_pattern, like_tokens, literal, any_text, percent, underscore, backslash,
}
use ai_cli_session_db.Search.Full.{in_session_ids}

-- The text occurs in the other, whatever the case of ASCII letters.
pub has_text : Text → Text → Bool
has_text p [] = starts_with p []
has_text p (c ∷ cs) = starts_with p (c ∷ cs) || has_text p cs

pub like-has_text :
    (p s : Text)
    → IsPlain p
    → like (pattern_tokens (percent ∷ (p ++ percent ∷ []))) s ≡ has_text p s
unfolding like has_text
like-has_text p [] h = like-starts_with p [] h
like-has_text p (c ∷ cs) h = ground (arith, like-starts_with p (c ∷ cs) h, like-has_text p cs h)

tokens_of_prefix :
    (s : Text)
    → like_tokens false (escape_like_pattern s ++ percent ∷ []) ≡ map literal s ++ any_text ∷ []
unfolding escape_like_pattern
tokens_of_prefix [] = refl
tokens_of_prefix (c ∷ cs) = elim (Bool-cases (c == backslash)) [
  | inl e ↦ ground (arith, e, tokens_of_prefix cs)
  | inr e ↦ elim (Bool-cases (c == percent)) [
    | inl f ↦ ground (arith, e, f, tokens_of_prefix cs)
    | inr f ↦ elim (Bool-cases (c == underscore)) [
      | inl g ↦ ground (arith, e, f, g, tokens_of_prefix cs)
      | inr g ↦ ground (arith, e, f, g, tokens_of_prefix cs)
    ]
  ]
]

like_anything : (s : Text) → like (any_text ∷ []) s ≡ true
unfolding like
like_anything [] = refl
like_anything (c ∷ cs) = like_anything cs

like_literals : (p s : Text) → like (map literal p ++ any_text ∷ []) s ≡ starts_with p s
unfolding like starts_with
like_literals [] s = like_anything s
like_literals (p ∷ ps) [] = refl
like_literals (p ∷ ps) (c ∷ cs) = ap (λ b. (fold_case p == fold_case c) && b) (like_literals ps cs)

-- A prefix of a session stands for itself, whatever characters it has.
like-prefix :
    (p s : Text)
    → like (like_tokens false (escape_like_pattern p ++ percent ∷ [])) s ≡ starts_with p s
like-prefix p s = ap (λ t. like t s) (tokens_of_prefix p) ∙ like_literals p s

any_ext : (f g : Text → Bool) (ps : List Text) → ((p : Text) → f p ≡ g p) → any f ps ≡ any g ps
any_ext f g [] h = refl
any_ext f g (p ∷ ps) h = ground (arith, h p, any_ext f g ps h)

abbrev pub begins_with_one : List Text → String → Bool
begins_with_one [] id = true
begins_with_one (p ∷ ps) id = any (λ q. starts_with q (codes id)) (p ∷ ps)

pub in_session_ids_lem :
    (ps : List Text) (id : String) → in_session_ids ps id ≡ begins_with_one ps id
in_session_ids_lem [] id = refl
in_session_ids_lem (p ∷ ps) id =
    any_ext (λ q. like (like_tokens false (escape_like_pattern q ++ percent ∷ [])) (codes id))
      (λ q. starts_with q (codes id)) (p ∷ ps) (λ q. like-prefix q (codes id))
