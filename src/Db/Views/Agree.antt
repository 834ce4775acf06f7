-- ===== src/Db/Views/Agree.antt =====
-- src/db.rs: a session shown in a page and the same session shown alone.
use ai_cli_session_db.Prelude.{
  ℕ, ◌≤◌, String, List, [], ◌∷◌, Option, none, some, true, false, not, ◌&&◌, ◌≡◌, refl, sym, ap,
  ◌∙◌, inl, inr, map, retain, length, Has, Has-map, Has-retain, Has-take, contains, str_eq,
  str_eq_iff, str_eq_refl, Bool, Bool-cases, arith, drop, ◌⊎◌, Option-cases, Has-drop, Has-reverse,
}
use ai_cli_session_db.Prelude.Sorting.{sort_by, sort_by-retain, Has-sort_by}
use ai_cli_session_db.Db.{SessionDb, Session, Project, SessionRelation, ChainNode}
use ai_cli_session_db.Db.Sessions.{find_session}
use ai_cli_session_db.Db.Listing.{newest_first, find_project, children_of, parents_of}
use ai_cli_session_db.Db.Views.{
  SessionWithProject, get_session_with_project, joined, page_row, project_page,
  list_sessions_by_project_path, distinct, follows, child_ids, by_creation, node_ids,
  nodes_by_creation, first_prev, first_parent, last_parent, last_prev, is_agent,
}

-- A weaker filter before a stronger one changes nothing.
retain_weaker :
    {A : Type 0} (p q : A → Bool) (xs : List A)
    → ((x : A) → p x ≡ true → q x ≡ true)
    → retain p (retain q xs) ≡ retain p xs
retain_weaker p q [] h = refl
retain_weaker p q (x ∷ xs) h = elim (Bool-cases (p x)) [
  | inl e ↦ rw (h x e, e) (ap (◌∷◌ x) (retain_weaker p q xs h))
  | inr e ↦ elim (Bool-cases (q x)) [
    | inl f ↦ rw (f, e) (retain_weaker p q xs h)
    | inr f ↦ rw (f, e) (retain_weaker p q xs h)
  ]
]

-- What the schema promises of the keys, and that no relation is doubled.
pub record IsSimple (db : SessionDb) : Type 0 where
  pub sessions_unique :
      (s : Session) → Has s db.sessions → find_session s.session_id db.sessions ≡ some s
  pub one_parent : (id : String) → length (parents_of id db.session_relations) ≤ 1
  pub one_node :
      (id : String) → length (retain (λ n. str_eq n.session_id id) db.continuation_chain_nodes) ≤ 1
  pub children_distinct :
      (id : String)
      → distinct (child_ids (by_creation (children_of id db.session_relations)))
        ≡ child_ids (by_creation (children_of id db.session_relations))

last-first_parent :
    (rels : List SessionRelation) → length rels ≤ 1 → last_parent rels ≡ first_parent rels
last-first_parent [] h = refl
last-first_parent (r ∷ []) h = refl
last-first_parent (r ∷ q ∷ rs) h = absurd (omega arith)

last-first_prev : (nodes : List ChainNode) → length nodes ≤ 1 → last_prev nodes ≡ first_prev nodes
last-first_prev [] h = refl
last-first_prev (r ∷ []) h = refl
last-first_prev (r ∷ q ∷ rs) h = absurd (omega arith)

joined_head :
    (s t : Session) (p q : Project) (ps : List Project)
    → find_project t.project_id ps ≡ some q
    → ◌≡◌ {A = Session × Project} (s, p) (t, q)
    → (s ≡ t) × (find_project s.project_id ps ≡ some p)
joined_head s t p q ps e same =
    let there = ap (λ (r : Session × Project). find_project r.0.project_id ps) same in
    let named = ap {B = Option Project} (λ (r : Session × Project). some r.1) (sym same) in
    (ap (λ (r : Session × Project). r.0) same, there ∙ e ∙ named)

Has-joined :
    (s : Session) (p : Project) (ps : List Project) (ss : List Session)
    → Has (s, p) (joined ps ss)
    → Has s ss × (find_project s.project_id ps ≡ some p)
unfolding joined
Has-joined s p ps [] m = absurd m
Has-joined s p ps (t ∷ ss) m = elim (Option-cases (find_project t.project_id ps)) [
  | inl e ↦ let r = Has-joined s p ps ss (rw (e, joined) at m) in (inr r.0, r.1)
  | inr (q, e) ↦
      let n : ◌≡◌ {A = Session × Project} (s, p) (t, q) ⊎ Has (s, p) (joined ps ss) =
        rw (e, joined) at m in
      elim n [
        | inl same ↦ let r = joined_head s t p q ps e same in (inl r.0, r.1)
        | inr later ↦ let r = Has-joined s p ps ss later in (inr r.0, r.1)
      ]
]

-- A row of a page is a row of the join.
Has-project_page :
    (s : Session) (p : Project) (path : String) (limit offset : ℕ) (db : SessionDb)
    → Has (s, p) (project_page path limit offset db)
    → Has (s, p) (joined db.projects db.sessions)
Has-project_page s p path limit offset db m =
    let test = λ (r : Session × Project). str_eq r.1.path path && not (is_agent r.0) in
    let rows = retain test (joined db.projects db.sessions) in
    let key = λ (r : Session × Project). r.0.updated_at in
    let kept =
      Has-drop offset (s, p) (newest_first key rows)
        (Has-take limit (s, p) (drop offset (newest_first key rows)) m) in
    (Has-retain test (s, p) (joined db.projects db.sessions)
      (Has-sort_by key (s, p) rows (Has-reverse (s, p) (sort_by key rows) kept))).0

contains_of_page :
    (s : Session) (p : Project) (rows : List (Session × Project))
    → Has (s, p) rows
    → contains (map (λ r. r.0.session_id) rows) s.session_id ≡ true
contains_of_page s p [] m = absurd m
contains_of_page s p (r ∷ rows) (inl e) =
    rw
      (ap (λ (q : Session × Project). str_eq q.0.session_id s.session_id) (sym e)
        ∙ str_eq_refl s.session_id)
      refl
contains_of_page s p (r ∷ rows) (inr m) = ground (arith, contains_of_page s p rows m)

sorted_weaker :
    {A : Type 0} (key : A → ℕ) (p q : A → Bool) (xs : List A)
    → ((x : A) → p x ≡ true → q x ≡ true)
    → retain p (sort_by key (retain q xs)) ≡ sort_by key (retain p xs)
sorted_weaker key p q xs h =
    ap (retain p) (sort_by-retain key q xs)
    ∙ retain_weaker p q (sort_by key xs) h
    ∙ sym (sort_by-retain key p xs)

module _ (db : SessionDb) (ids : List String) (s : Session)
    (listed : contains ids s.session_id ≡ true) where
  same_children :
      child_ids (
        children_of s.session_id
          (by_creation (retain (λ r. contains ids r.parent_session_id) db.session_relations)))
      ≡ child_ids (by_creation (children_of s.session_id db.session_relations))
  same_children = ap child_ids (
      sorted_weaker (λ r. r.created_at) (λ r. str_eq r.parent_session_id s.session_id)
        (λ r. contains ids r.parent_session_id) db.session_relations
        (λ r e. ap (contains ids) ((str_eq_iff r.parent_session_id s.session_id).0 e) ∙ listed))

  same_parents :
      parents_of s.session_id (retain (λ r. contains ids r.child_session_id) db.session_relations)
      ≡ parents_of s.session_id db.session_relations
  same_parents =
      retain_weaker (λ r. str_eq r.child_session_id s.session_id)
        (λ r. contains ids r.child_session_id) db.session_relations
        (λ r e. ap (contains ids) ((str_eq_iff r.child_session_id s.session_id).0 e) ∙ listed)

  same_nodes :
      retain
        (λ n. str_eq n.session_id s.session_id)
        (retain (λ n. contains ids n.session_id) db.continuation_chain_nodes)
      ≡ retain (λ n. str_eq n.session_id s.session_id) db.continuation_chain_nodes
  same_nodes =
      retain_weaker (λ n. str_eq n.session_id s.session_id) (λ n. contains ids n.session_id)
        db.continuation_chain_nodes
        (λ n e. ap (contains ids) ((str_eq_iff n.session_id s.session_id).0 e) ∙ listed)

  same_next :
      node_ids (
        retain (follows s.session_id) (
          nodes_by_creation (
            retain
              (λ n. elim n.prev_session_id [ none ↦ false | some p ↦ contains ids p ])
              db.continuation_chain_nodes)))
      ≡ node_ids (nodes_by_creation (retain (follows s.session_id) db.continuation_chain_nodes))
  same_next = ap node_ids (
      sorted_weaker (λ n. n.created_at) (follows s.session_id)
        (λ n. elim n.prev_session_id [ none ↦ false | some p ↦ contains ids p ])
        db.continuation_chain_nodes (λ n. named n.prev_session_id))
    where
      named :
          (prev : Option String)
          → (elim prev [ none ↦ false | some p ↦ str_eq p s.session_id ]) ≡ true
          → (elim prev [ none ↦ false | some p ↦ contains ids p ]) ≡ true
      named none e = e
      named (some p) e = ap (contains ids) ((str_eq_iff p s.session_id).0 e) ∙ listed

-- A row of a page, with what get_session_with_project reads.
page_row_lem :
    (db : SessionDb) (ids : List String) (s : Session) (p : Project)
    → IsSimple db
    → contains ids s.session_id ≡ true
    → Has s db.sessions
    → find_project s.project_id db.projects ≡ some p
    → get_session_with_project s.session_id db ≡ some (page_row ids db (s, p))
unfolding get_session_with_project page_row
page_row_lem db ids s p simple listed m named =
    rw (simple.sessions_unique s m, get_session_with_project)
      (rw named (
        rw
          (
            same_children db ids s listed,
            same_parents db ids s listed,
            same_nodes db ids s listed,
            same_next db ids s listed,
            simple.children_distinct s.session_id,
            last-first_parent (parents_of s.session_id db.session_relations)
                (simple.one_parent s.session_id),
            last-first_prev
                (retain (λ n. str_eq n.session_id s.session_id) db.continuation_chain_nodes)
                (simple.one_node s.session_id),
          )
          refl))

-- Where identifiers are unique and no session has two relations as a child or the same child twice,
-- every session that a page of a project shows is shown alone in the same way: the same preview,
-- children, parent and neighbours in its chain, though the page reads them for all its sessions at
-- once.
pub list_sessions-get_session :
    (path : String) (limit offset : ℕ) (db : SessionDb) (v : SessionWithProject)
    → IsSimple db
    → Has v (list_sessions_by_project_path path limit offset db)
    → get_session_with_project v.session.session_id db ≡ some v
unfolding list_sessions_by_project_path page_row
list_sessions-get_session path limit offset db v simple m =
    let rows = project_page path limit offset db in
    let ids = map (λ (r : Session × Project). r.0.session_id) rows in
    let (r, h, e) = Has-map (page_row ids db) v rows m in
    let row =
      Has-joined r.0 r.1 db.projects db.sessions
        (Has-project_page r.0 r.1 path limit offset db h) in
    let alone = page_row_lem db ids r.0 r.1 simple (contains_of_page r.0 r.1 rows h) row.0 row.1 in
    ap (λ (w : SessionWithProject). get_session_with_project w.session.session_id db) e
    ∙ alone
    ∙ ap some (sym e)
