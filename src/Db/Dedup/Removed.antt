-- ===== src/Db/Dedup/Removed.antt =====
-- src/db.rs, deduplicate_projects: which rows of the project table are deleted.
use ai_cli_session_db.Prelude.{
  ℕ, suc, ◌+◌, String, List, [], ◌∷◌, ◌++◌, some, Bool, not, ◌≡◌, ◌≢◌, refl, sym, ap, ◌∙◌, map, any,
  retain, length, ◌==◌, ==_iff, All, inl, inr, Bool-cases, arith, subst, ◌||◌, length-append,
}
use ai_cli_session_db.Db.{Project}
use ai_cli_session_db.Db.Dedup.Steps.{path_at}

-- Different ids.
abbrev pub AllDifferent : List ℕ → Type 0
AllDifferent [] = Unit
AllDifferent (i ∷ ids) = All (λ j. j ≢ i) ids × AllDifferent ids

-- The ids of all projects.
abbrev pub ids : List Project → List ℕ
ids ps = map (λ p. p.id) ps

abbrev pub among : ℕ → List ℕ → Bool
among k js = any (λ j. k == j) js

-- The table without the rows of these ids.
abbrev pub without : List ℕ → List Project → List Project
without js ps = retain (λ p. not (among p.id js)) ps

All-retain :
    (P : ℕ → Type 0) (f : Project → Bool) (ps : List Project)
    → All P (ids ps)
    → All P (ids (retain f ps))
All-retain P f [] h = tt
All-retain P f (p ∷ ps) (h, hs) = elim (Bool-cases (f p)) [
  | inl e ↦ rw e (h, All-retain P f ps hs)
  | inr e ↦ rw e (All-retain P f ps hs)
]

AllDifferent-retain :
    (f : Project → Bool) (ps : List Project)
    → AllDifferent (ids ps)
    → AllDifferent (ids (retain f ps))
AllDifferent-retain f [] d = tt
AllDifferent-retain f (p ∷ ps) (d, ds) = elim (Bool-cases (f p)) [
  | inl e ↦ rw e (All-retain (λ j. j ≢ p.id) f ps d, AllDifferent-retain f ps ds)
  | inr e ↦ rw e (AllDifferent-retain f ps ds)
]

without_other :
    (id : ℕ) (ps : List Project)
    → All (λ j. j ≢ id) (ids ps)
    → retain (λ p. not (p.id == id)) ps ≡ ps
without_other id [] h = refl
without_other id (p ∷ ps) (h, hs) = ground (arith, h, without_other id ps hs)

-- Where ids are distinct, one row goes.
one_less :
    (id : ℕ) (q : String) (ps : List Project)
    → AllDifferent (ids ps)
    → path_at id ps ≡ some q
    → suc (length (retain (λ p. not (p.id == id)) ps)) ≡ length ps
one_less id q [] d e = cc
one_less id q (p ∷ ps) (d, ds) e = elim (Bool-cases (p.id == id)) [
  | inl h ↦
      let same = (==_iff p.id id).0 h in
      let rest : retain (λ r. not (r.id == id)) ps ≡ ps =
        without_other id ps (subst (λ k. All (λ j. j ≢ k) (ids ps)) same d) in
      rw h (ap (λ l. suc (length l)) rest)
  | inr h ↦ rw h (ap suc (one_less id q ps ds (rw h at e)))
]

without-cons :
    (id : ℕ) (js : List ℕ) (ps : List Project)
    → without js (retain (λ p. not (p.id == id)) ps) ≡ without (id ∷ js) ps
without-cons id js [] = refl
without-cons id js (p ∷ ps) = ground (arith, without-cons id js ps)

among-append : (k : ℕ) (is js : List ℕ) → among k (is ++ js) ≡ (among k is || among k js)
among-append k [] js = refl
among-append k (i ∷ is) js = ground (arith, among-append k is js)

without-append :
    (is js : List ℕ) (ps : List Project) → without js (without is ps) ≡ without (is ++ js) ps
without-append is js [] = refl
without-append is js (p ∷ ps) = ground (arith, without-append is js ps, among-append p.id is js)

without-none : (ps : List Project) → without [] ps ≡ ps
without-none [] = refl
without-none (p ∷ ps) = ap (◌∷◌ p) (without-none ps)

-- Exactly the rows of these ids went, one for each, and the ids that are left are distinct.
pub record IsWithout (before : List Project) (deleted : List ℕ) (after : List Project)
    : Type 0 where
  pub left : after ≡ without deleted before
  pub counted : length deleted + length after ≡ length before
  pub different : AllDifferent (ids after)

pub IsWithout-none : (ps : List Project) → AllDifferent (ids ps) → IsWithout ps [] ps
IsWithout-none ps d = record { left = sym (without-none ps); counted = omega arith; different = d }

pub IsWithout-step :
    (id : ℕ) (q : String) (ps : List Project)
    → AllDifferent (ids ps)
    → path_at id ps ≡ some q
    → IsWithout ps (id ∷ []) (retain (λ p. not (p.id == id)) ps)
IsWithout-step id q ps d e = record {
  left = sym (without-none (retain (λ p. not (p.id == id)) ps)) ∙ without-cons id [] ps;
  counted = omega (arith, one_less id q ps d e);
  different = AllDifferent-retain (λ p. not (p.id == id)) ps d;
}

pub IsWithout-append :
    (is js : List ℕ) (a b c : List Project)
    → IsWithout a is b
    → IsWithout b js c
    → IsWithout a (is ++ js) c
IsWithout-append is js a b c f g = record {
  left = g.left ∙ ap (without js) f.left ∙ without-append is js a;
  counted = omega (arith, f.counted, g.counted, length-append is js);
  different = g.different;
}
