-- ===== src/Db/Talks.antt =====
-- src/db.rs, the summaries of talks: one row for each session and talk.
use mathlib.Core.Option
use ai_cli_session_db.Prelude.{
  ◌⊎◌, inl, inr, sym, ap, ◌∙◌, Bool-cases, Option-cases, ℕ, suc, String, Text, List, [], ◌∷◌, ◌++◌,
  Option, none, some, Bool, true, false, not, ◌&&◌, ◌≡◌, refl, map, retain, str_eq, str_eq_iff,
  if◌then◌else◌, arith,
}
use ai_cli_session_db.Prelude.Sorting.{sort_by}
use ai_cli_session_db.Db.{SessionDb, Talk}
use ai_cli_session_db.Db.Sessions.{coalesce, session_exists}

abbrev pub is_talk : String → String → Talk → Bool
is_talk session_id talk_id t = str_eq t.session_id session_id && str_eq t.talk_id talk_id

unfoldable pub find_talk : String → String → List Talk → Option Talk
find_talk session_id talk_id [] = none
find_talk session_id talk_id (t ∷ ts) =
    if is_talk session_id talk_id t then some t else find_talk session_id talk_id ts

-- The row that the conflict leaves: an L3 summary that is not given stays.
abbrev pub merge_talk : Text → Option Text → ℕ → Talk → Talk
merge_talk l2 l3 now t = record t {
  summary_l2 = l2;
  summary_l3 = coalesce l3 t.summary_l3;
  updated_at = now;
}

abbrev pub new_talk : String → String → Text → Option Text → ℕ → ℕ → Talk
new_talk session_id talk_id l2 l3 now id = record {
  id = id;
  session_id = session_id;
  talk_id = talk_id;
  summary_l2 = l2;
  summary_l3 = l3;
  created_at = now;
  updated_at = now;
}

abbrev pub update_talk : String → String → Text → Option Text → ℕ → SessionDb → SessionDb
update_talk session_id talk_id l2 l3 now db = record db {
  talks = map (λ t. if is_talk session_id talk_id t then merge_talk l2 l3 now t else t) db.talks;
}

abbrev pub add_talk : String → String → Text → Option Text → ℕ → SessionDb → SessionDb
add_talk session_id talk_id l2 l3 now db = record db {
  talks = db.talks ++ new_talk session_id talk_id l2 l3 now (suc db.last_talk_id) ∷ [];
  last_talk_id = suc db.last_talk_id;
}

-- `upsert_talk_summary`; `none` is a foreign key that fails.
unfoldable pub upsert_talk_summary :
    String → String → Text → Option Text → ℕ → SessionDb → Option SessionDb
upsert_talk_summary session_id talk_id l2 l3 now db = elim (find_talk session_id talk_id db.talks) [
  | some old ↦ some (update_talk session_id talk_id l2 l3 now db)
  | none ↦
      if db.foreign_keys && not (session_exists session_id db)
      then none
      else some (add_talk session_id talk_id l2 l3 now db)
]

unfoldable pub get_talk_summaries : String → SessionDb → List Talk
get_talk_summaries session_id db =
    sort_by (λ t. t.created_at) (retain (λ t. str_eq t.session_id session_id) db.talks)

find_talk-map :
    (a b c d : String) (f : Talk → Talk) (ts : List Talk)
    → ((t : Talk)
        → (str_eq (f t).session_id c ≡ str_eq t.session_id c)
          × (str_eq (f t).talk_id d ≡ str_eq t.talk_id d))
    → find_talk c d (map (λ t. if is_talk a b t then f t else t) ts)
      ≡ (if str_eq a c && str_eq b d then Option.map f (find_talk c d ts) else find_talk c d ts)
unfolding find_talk
find_talk-map a b c d f [] h = ground arith
find_talk-map a b c d f (t ∷ ts) h = ground (
  arith,
  h t,
  str_eq_iff a c,
  str_eq_iff b d,
  str_eq_iff t.session_id a,
  str_eq_iff t.talk_id b,
  str_eq_iff t.session_id c,
  str_eq_iff t.talk_id d,
  find_talk-map a b c d f ts h,
)

find_talk-append :
    (c d : String) (ts : List Talk) (n : Talk)
    → find_talk c d (ts ++ n ∷ [])
      ≡ elim (find_talk c d ts) [ some t ↦ some t | none ↦ if is_talk c d n then some n else none ]
unfolding find_talk
find_talk-append c d [] n = refl
find_talk-append c d (t ∷ ts) n = ground (arith, find_talk-append c d ts n)

-- The row that an upsert leaves, from the old one.
abbrev pub written_talk : String → String → Text → Option Text → ℕ → ℕ → Option Talk → Talk
written_talk a b l2 l3 now id none = new_talk a b l2 l3 now id
written_talk a b l2 l3 now id (some old) = merge_talk l2 l3 now old

-- One key of the table either is the other, so that both find one row, or is not.
same_talk :
    (a b c d : String) (ts : List Talk)
    → ((str_eq a c && str_eq b d) ≡ true × (find_talk c d ts ≡ find_talk a b ts))
      ⊎ ((str_eq a c && str_eq b d) ≡ false)
same_talk a b c d ts = elim (Bool-cases (str_eq a c)) [
  | inl e ↦ elim (Bool-cases (str_eq b d)) [
    | inl f ↦ inl (
      rw (e, f) refl,
      ap (λ k. find_talk k d ts) (sym ((str_eq_iff a c).0 e))
          ∙ ap (λ k. find_talk a k ts) (sym ((str_eq_iff b d).0 f)),
    )
    | inr f ↦ inr (rw (e, f) refl)
  ]
  | inr e ↦ inr (rw e refl)
]

written_row :
    (a b c d : String) (l2 : Text) (l3 : Option Text) (now : ℕ) (old : Talk) (ts : List Talk)
    → find_talk a b ts ≡ some old
    → find_talk c d (map (λ t. if is_talk a b t then merge_talk l2 l3 now t else t) ts)
      ≡ (if str_eq a c && str_eq b d then some (merge_talk l2 l3 now old) else find_talk c d ts)
written_row a b c d l2 l3 now old ts f =
    find_talk-map a b c d (merge_talk l2 l3 now) ts (λ t. (refl, refl))
    ∙ elim (same_talk a b c d ts) [ inl (e, g) ↦ rw (e, g, f) refl | inr e ↦ rw e refl ]

added_row :
    (a b c d : String) (n : Talk) (ts : List Talk)
    → is_talk c d n ≡ (str_eq a c && str_eq b d)
    → find_talk a b ts ≡ none
    → find_talk c d (ts ++ n ∷ []) ≡ (if str_eq a c && str_eq b d then some n else find_talk c d ts)
added_row a b c d n ts k f = find_talk-append c d ts n ∙ elim (same_talk a b c d ts) [
  | inl (e, g) ↦ rw (g, f, k, e) refl
  | inr e ↦ elim (Option-cases (find_talk c d ts)) [
    | inl h ↦ rw (h, k, e) refl
    | inr (t, h) ↦ rw (h, e) refl
  ]
]

-- After an upsert that succeeds the talk has the new L2 summary, and the new L3 summary or, where
-- none was given, its old one; the row of every other talk, of this session or another, and whether
-- it has one, is as before. An upsert fails exactly where foreign keys are enforced and neither the
-- talk nor its session is there.
pub upsert_talk_summary-find :
    (a b c d : String) (l2 : Text) (l3 : Option Text) (now : ℕ) (db : SessionDb)
    → ((upsert_talk_summary a b l2 l3 now db ≡ none)
        × (find_talk a b db.talks ≡ none)
        × (db.foreign_keys ≡ true)
        × (session_exists a db ≡ false))
      ⊎ ((done : SessionDb) × (upsert_talk_summary a b l2 l3 now db ≡ some done)
          × (find_talk c d done.talks ≡ (
              if str_eq a c && str_eq b d
              then some (written_talk a b l2 l3 now (suc db.last_talk_id) (find_talk a b db.talks))
              else find_talk c d db.talks)))
unfolding upsert_talk_summary
upsert_talk_summary-find a b c d l2 l3 now db = elim (Option-cases (find_talk a b db.talks)) [
  | inr (old, f) ↦ inr (
    update_talk a b l2 l3 now db,
    rw (f, upsert_talk_summary) refl,
    rw f (written_row a b c d l2 l3 now old db.talks f),
  )
  | inl f ↦ elim (Bool-cases (db.foreign_keys && not (session_exists a db))) [
    | inl e ↦ inl (rw (f, e, upsert_talk_summary) refl, f, ground arith, ground arith)
    | inr e ↦ inr (
      add_talk a b l2 l3 now db,
      rw (f, e, upsert_talk_summary) refl,
      rw f (added_row a b c d (new_talk a b l2 l3 now (suc db.last_talk_id)) db.talks refl f),
    )
  ]
]

-- An upsert that succeeds touches no other table.
pub upsert_talk_summary-frame :
    (a b : String) (l2 : Text) (l3 : Option Text) (now : ℕ) (db done : SessionDb)
    → upsert_talk_summary a b l2 l3 now db ≡ some done
    → (done.foreign_keys ≡ db.foreign_keys)
      × (done.sessions ≡ db.sessions)
      × (done.messages ≡ db.messages)
      × (done.continuation_chains ≡ db.continuation_chains)
      × (done.continuation_chain_nodes ≡ db.continuation_chain_nodes)
unfolding upsert_talk_summary
upsert_talk_summary-frame a b l2 l3 now db done e = ground arith
