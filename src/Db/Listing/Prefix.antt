-- ===== src/Db/Listing/Prefix.antt =====
-- src/db.rs, resolve_session_id: what an identifier that is given in part stands for.
use ai_cli_session_db.Prelude.{
  String, Text, List, [], ◌∷◌, ◌++◌, Option, none, some, Bool, true, false, ◌&&◌, ◌||◌, ◌≡◌, refl,
  sym, ap, ◌∙◌, ◌⊎◌, inl, inr, retain, Has, All, codes, ◌==◌, Bool-cases, arith,
}
use ai_cli_session_db.Db.{SessionDb, Session}
use ai_cli_session_db.Db.Listing.{
  first, fold_case, pattern_tokens, like, id_like, resolve_session_id,
}
use ai_cli_session_db.Search.Like.{any_text, percent, underscore}

-- The text begins, or ends, with the given one, whatever the case of ASCII letters.
unfoldable pub starts_with : Text → Text → Bool
starts_with [] s = true
starts_with (p ∷ ps) [] = false
starts_with (p ∷ ps) (c ∷ cs) = (fold_case p == fold_case c) && starts_with ps cs

pub same_text : Text → Text → Bool
same_text [] [] = true
same_text [] (c ∷ cs) = false
same_text (p ∷ ps) [] = false
same_text (p ∷ ps) (c ∷ cs) = (fold_case p == fold_case c) && same_text ps cs

pub ends_with : Text → Text → Bool
ends_with p [] = same_text p []
ends_with p (c ∷ cs) = same_text p (c ∷ cs) || ends_with p cs

-- The text has no wildcard.
abbrev pub IsPlain : Text → Type 0
IsPlain p = All (λ c. ((c == percent) ≡ false) × ((c == underscore) ≡ false)) p

pub like_rest : (s : Text) → like (any_text ∷ []) s ≡ true
unfolding like
like_rest [] = refl
like_rest (c ∷ cs) = like_rest cs

pub like-starts_with :
    (p s : Text) → IsPlain p → like (pattern_tokens (p ++ percent ∷ [])) s ≡ starts_with p s
unfolding like starts_with
like-starts_with [] s h = like_rest s
like-starts_with (p ∷ ps) [] (h, hs) = ground (arith, h)
like-starts_with (p ∷ ps) (c ∷ cs) (h, hs) = ground (arith, h, like-starts_with ps cs hs)

like-same_text : (p s : Text) → IsPlain p → like (pattern_tokens p) s ≡ same_text p s
unfolding like same_text
like-same_text [] [] h = refl
like-same_text [] (c ∷ cs) h = refl
like-same_text (p ∷ ps) [] (h, hs) = ground (arith, h)
like-same_text (p ∷ ps) (c ∷ cs) (h, hs) = ground (arith, h, like-same_text ps cs hs)

like-ends_with : (p s : Text) → IsPlain p → like (pattern_tokens (percent ∷ p)) s ≡ ends_with p s
unfolding like ends_with
like-ends_with p [] h = like-same_text p [] h
like-ends_with p (c ∷ cs) h = ground (arith, like-same_text p (c ∷ cs) h, like-ends_with p cs h)

-- A row that passes, or the knowledge that none does.
abbrev Found : {A : Type 0} → (A → Bool) → List A → Option A → Type 0
Found {A} p xs none = (x : A) → Has x xs → p x ≡ false
Found p xs (some x) = Has x xs × (p x ≡ true)

Found-cons :
    {A : Type 0} (p : A → Bool) (y : A) (ys : List A) (o : Option A)
    → p y ≡ false
    → Found p ys o
    → Found p (y ∷ ys) o
Found-cons p y ys none e h = λ x m. elim m [ inl q ↦ ap p q ∙ e | inr n ↦ h x n ]
Found-cons p y ys (some x) e h = (inr h.0, h.1)

Found-first : {A : Type 0} (p : A → Bool) (xs : List A) → Found p xs (first (retain p xs))
Found-first p [] = λ x m. absurd m
Found-first p (y ∷ ys) = elim (Bool-cases (p y)) [
  | inl e ↦ rw e (inl refl, e)
  | inr e ↦ rw e (Found-cons p y ys (first (retain p ys)) e (Found-first p ys))
]

abbrev pub Begins : Text → Session → Type 0
Begins prefix s = starts_with prefix (codes s.session_id) ≡ true

abbrev pub Ends : Text → Session → Type 0
Ends prefix s = ends_with prefix (codes s.session_id) ≡ true

-- What an answer says of the sessions.
abbrev pub Answers : Text → List Session → Option String → Type 0
Answers prefix ss none = (s : Session) → Has s ss → (Begins prefix s → ⊥) × (Ends prefix s → ⊥)
Answers prefix ss (some id) =
    (s : Session) × Has s ss
    × (s.session_id ≡ id)
    × (Begins prefix s
        ⊎ (Ends prefix s × ((other : Session) → Has other ss → Begins prefix other → ⊥)))

-- A text without wildcards resolves to the identifier of a session that begins with it or, where no
-- session does, of one that ends with it, whatever the case of ASCII letters; the answer is none
-- only where no session begins or ends with it.
pub resolve_session_id-Answers :
    (prefix : Text) (db : SessionDb)
    → IsPlain prefix
    → Answers prefix db.sessions (resolve_session_id prefix db)
unfolding resolve_session_id
resolve_session_id-Answers prefix db plain =
    resolved (first (retain (id_like (prefix ++ percent ∷ [])) db.sessions))
      (first (retain (id_like (percent ∷ prefix)) db.sessions))
      (Found-first (id_like (prefix ++ percent ∷ [])) db.sessions)
      (Found-first (id_like (percent ∷ prefix)) db.sessions)
  where
    begin :
        (s : Session) → id_like (prefix ++ percent ∷ []) s ≡ starts_with prefix (codes s.session_id)
    begin s = like-starts_with prefix (codes s.session_id) plain

    end : (s : Session) → id_like (percent ∷ prefix) s ≡ ends_with prefix (codes s.session_id)
    end s = like-ends_with prefix (codes s.session_id) plain

    resolved :
        (a b : Option Session)
        → Found (id_like (prefix ++ percent ∷ [])) db.sessions a
        → Found (id_like (percent ∷ prefix)) db.sessions b
        → Answers prefix db.sessions (elim a [
          | some s ↦ some s.session_id
          | none ↦ elim b [ some s ↦ some s.session_id | none ↦ none ]
        ])
    resolved (some s) b f g = (s, f.0, refl, inl (sym (begin s) ∙ f.1))
    resolved none (some s) f g =
        (s, g.0, refl, inr (sym (end s) ∙ g.1, λ o m y. cc (f o m, begin o, y)))
    resolved none none f g = λ s m. (λ y. cc (f s m, begin s, y), λ y. cc (g s m, end s, y))
