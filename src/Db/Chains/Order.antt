-- ===== src/Db/Chains/Order.antt =====
-- Reading continuation chains back (src/db.rs), and what the order of the insertions decides.
use ai_cli_session_db.Prelude.{
  Bool, ◌↔◌, Has, Has-retain, Has-retain_of, retain, length, ℕ, zero, suc, String, List, [], ◌∷◌,
  Option, none, some, true, ◌≡◌, refl, sym, ◌∙◌, inl, inr, any, str_eq, str_eq_iff, str_eq_refl,
  Bool-cases, Option-cases, arith, All,
}
use ai_cli_session_db.Prelude.Sorting.{
  sort_by, Sorted, Sorted-sort_by, Has-sort_by, Has-sort_by_of, length-sort_by,
}
use ai_cli_session_db.Db.{SessionDb, Chain, ChainNode}
use ai_cli_session_db.Db.Chains.{
  ContinuationChain, find_node, find_chain, add_node, link, open_chain, insert_continuation,
  get_continuation_chain, assemble,
}
use ai_cli_session_db.Db.Chains.Linked.{
  Linked, root, below, opened, open_chain_lem, find_node-opened, find_node_later, find_node-snoc,
  insert_continuation-Linked, root_node,
}

-- The node that is reached by following `prev_session_id` so often.
unfoldable pub ancestor : ℕ → String → List ChainNode → Option ChainNode
ancestor zero id ns = find_node id ns
ancestor (suc k) id ns = elim (find_node id ns) [
  | none ↦ none
  | some n ↦ elim n.prev_session_id [ none ↦ none | some p ↦ ancestor k p ns ]
]

ancestor_root :
    (db : SessionDb) (k : ℕ) (id : String) (n : ChainNode)
    → Linked db
    → find_node id db.continuation_chain_nodes ≡ some n
    → n.depth ≡ k
    → (r : ChainNode) × (ancestor k id db.continuation_chain_nodes ≡ some r)
      × (r.session_id ≡ n.chain_id)
      × (r.prev_session_id ≡ none)
unfolding ancestor
ancestor_root db zero id n h e d = elim (h.hangs id n e) [
  | root p z s ↦ (n, e, s, p)
  | below p q f g c s ↦ absurd (omega arith)
]
ancestor_root db (suc k) id n h e d = elim (h.hangs id n e) [
  | root p z s ↦ absurd (omega arith)
  | below p q f g c s ↦
      let r = ancestor_root db k p q h g (omega arith) in
      (r.0, rw (e, f, ancestor) r.1, r.2 ∙ c, r.3)
]

-- In a linked table, following the predecessors `depth` times leads from a node to the root of its
-- chain, after which the chain is named.
pub depth_root :
    (db : SessionDb) (id : String) (n : ChainNode)
    → Linked db
    → find_node id db.continuation_chain_nodes ≡ some n
    → (r : ChainNode) × (ancestor n.depth id db.continuation_chain_nodes ≡ some r)
      × (r.session_id ≡ n.chain_id)
      × (r.prev_session_id ≡ none)
depth_root db id n h e = ancestor_root db n.depth id n h e refl

found_chain :
    (id : String) (cs : List Chain)
    → All (λ (c : Chain). c.chain_id ≡ c.root_session_id) cs
    → any (λ d. str_eq d.chain_id id) cs ≡ true
    → (c : Chain) × (find_chain id cs ≡ some c) × (c.root_session_id ≡ id)
unfolding find_chain
found_chain id [] h e = cc
found_chain id (c ∷ cs) h e = elim (Bool-cases (str_eq c.chain_id id)) [
  | inl hit ↦ (c, rw hit, sym h.0 ∙ (str_eq_iff c.chain_id id).0 hit)
  | inr miss ↦ let r = found_chain id cs h.1 (rw miss at e) in (r.0, rw miss r.1, r.2)
]

-- The nodes of a chain that is read are those of its name, ordered by their depth.
assemble-nodes :
    (c : Chain) (chain_id : String) (db : SessionDb)
    → ((m : ChainNode)
        → Has m (assemble c chain_id db).nodes
          ↔ (Has m db.continuation_chain_nodes × (m.chain_id ≡ chain_id)))
      × Sorted (λ m. m.depth) (assemble c chain_id db).nodes
      × (length (assemble c chain_id db).nodes
          ≡ length (retain (λ m. str_eq m.chain_id chain_id) db.continuation_chain_nodes))
assemble-nodes c chain_id db =
    let p : ChainNode → Bool = λ m. str_eq m.chain_id chain_id in
    let by_time : ChainNode → ℕ = λ m. m.created_at in
    let by_depth : ChainNode → ℕ = λ m. m.depth in
    let all = db.continuation_chain_nodes in
    let rows = retain p all in
    (
      λ m. (
        λ h.
            let (k, e) =
              Has-retain p m all
                (Has-sort_by by_time m rows (Has-sort_by by_depth m (sort_by by_time rows) h)) in
            (k, (str_eq_iff m.chain_id chain_id).0 e),
        λ (k, e). Has-sort_by_of by_depth m (sort_by by_time rows) (
            Has-sort_by_of by_time m rows
              (Has-retain_of p m all k ((str_eq_iff m.chain_id chain_id).1 e))),
      ),
      Sorted-sort_by by_depth (sort_by by_time rows),
      length-sort_by by_depth (sort_by by_time rows) ∙ length-sort_by by_time rows,
    )

-- Reading the chain of a session of a linked table never fails, and gives the chain of the session's
-- node with the chain's root: its nodes are all the nodes of the chain and no others, each once,
-- ordered by their distance from the root.
pub get_continuation_chain-root :
    (db : SessionDb) (id : String) (n : ChainNode)
    → Linked db
    → find_node id db.continuation_chain_nodes ≡ some n
    → (c : ContinuationChain) × (get_continuation_chain id db ≡ some (some c))
      × (c.chain_id ≡ n.chain_id)
      × (c.root_session_id ≡ n.chain_id)
      × ((m : ChainNode)
          → Has m c.nodes ↔ (Has m db.continuation_chain_nodes × (m.chain_id ≡ n.chain_id)))
      × Sorted (λ m. m.depth) c.nodes
      × (length c.nodes
          ≡ length (retain (λ m. str_eq m.chain_id n.chain_id) db.continuation_chain_nodes))
unfolding get_continuation_chain
get_continuation_chain-root db id n h e =
    let r = found_chain n.chain_id db.continuation_chains h.named (h.owned id n e) in
    let (members, sorted, counted) = assemble-nodes r.0 n.chain_id db in
    (
      assemble r.0 n.chain_id db,
      rw (e, r.1, get_continuation_chain) refl,
      refl,
      r.2,
      members,
      sorted,
      counted,
    )

add_node_found :
    (n : ChainNode) (db db' : SessionDb)
    → add_node n db ≡ some db'
    → (m : ChainNode) × (find_node n.session_id db'.continuation_chain_nodes ≡ some m)
unfolding add_node
add_node_found n db db' e =
    elim (Option-cases (find_node n.session_id db.continuation_chain_nodes)) [
      | inr (m, f) ↦ (m, ground arith)
      | inl f ↦ (
        n,
        ground (
          arith,
          find_node-snoc n.session_id db.continuation_chain_nodes n,
          str_eq_refl n.session_id,
        ),
      )
    ]

insert_continuation_found :
    (id prev : String) (now : ℕ) (db db' : SessionDb)
    → insert_continuation id prev now db ≡ some db'
    → (m : ChainNode) × (find_node id db'.continuation_chain_nodes ≡ some m)
unfolding insert_continuation link
insert_continuation_found id prev now db db' e =
    elim (Option-cases (find_node id db.continuation_chain_nodes)) [
      | inr (m, f) ↦ (m, ground arith)
      | inl f ↦ elim (Option-cases (find_node prev db.continuation_chain_nodes)) [
        | inr (p, g) ↦ add_node_found _ db db' (rw (f, g, insert_continuation) at e)
        | inl g ↦ elim (Option-cases (open_chain prev now db)) [
          | inr (o, k) ↦ add_node_found _ o db' (rw (f, g, k, insert_continuation) at e)
          | inl k ↦ absurd (ground arith)
        ]
      ]
    ]

-- The first continuation of a session stands: later ones for it, from any predecessor, change nothing.
pub insert_continuation_once :
    (id prev other : String) (now later : ℕ) (db db' : SessionDb)
    → insert_continuation id prev now db ≡ some db'
    → insert_continuation id other later db' ≡ some db'
unfolding insert_continuation
insert_continuation_once id prev other now later db db' e =
    let found = insert_continuation_found id prev now db db' e in rw (found.1, insert_continuation)

add_node_keeps :
    (n : ChainNode) (db db' : SessionDb) (id : String) (m : ChainNode)
    → add_node n db ≡ some db'
    → find_node id db.continuation_chain_nodes ≡ some m
    → find_node id db'.continuation_chain_nodes ≡ some m
unfolding add_node
add_node_keeps n db db' id m e f =
    ground (arith, find_node_later id db.continuation_chain_nodes n m f)

open_chain_keeps :
    (prev : String) (now : ℕ) (db o : SessionDb) (k : String) (m : ChainNode)
    → open_chain prev now db ≡ some o
    → find_node k db.continuation_chain_nodes ≡ some m
    → find_node k o.continuation_chain_nodes ≡ some m
unfolding open_chain
open_chain_keeps prev now db o k m e h = add_node_keeps _ _ o k m e h

-- No call takes a node away or changes it.
insert_continuation_keeps :
    (id prev : String) (now : ℕ) (db db' : SessionDb) (k : String) (m : ChainNode)
    → insert_continuation id prev now db ≡ some db'
    → find_node k db.continuation_chain_nodes ≡ some m
    → find_node k db'.continuation_chain_nodes ≡ some m
unfolding insert_continuation link
insert_continuation_keeps id prev now db db' k m e h =
    elim (Option-cases (find_node id db.continuation_chain_nodes)) [
      | inr (n, f) ↦ ground (arith, rw (f, insert_continuation) at e, h)
      | inl f ↦ elim (Option-cases (find_node prev db.continuation_chain_nodes)) [
        | inr (p, g) ↦ add_node_keeps _ db db' k m (rw (f, g, insert_continuation) at e) h
        | inl g ↦ elim (Option-cases (open_chain prev now db)) [
          | inr (o, q) ↦
              add_node_keeps _ o db' k m (rw (f, g, q, insert_continuation) at e)
                (open_chain_keeps prev now db o k m q h)
          | inl q ↦ absurd (ground arith)
        ]
      ]
    ]

-- Any calls, one after the other, each with its session, the session before it and its time.
unfoldable pub insert_all : List (String × String × ℕ) → SessionDb → Option SessionDb
insert_all [] db = some db
insert_all ((id, prev, now) ∷ calls) db = elim (insert_continuation id prev now db) [
  | none ↦ none
  | some db' ↦ insert_all calls db'
]

insert_all_keeps :
    (calls : List (String × String × ℕ)) (db : SessionDb) (k : String) (m : ChainNode)
    → Linked db
    → find_node k db.continuation_chain_nodes ≡ some m
    → (end : SessionDb) × (insert_all calls db ≡ some end)
      × (find_node k end.continuation_chain_nodes ≡ some m)
unfolding insert_all
insert_all_keeps [] db k m h f = (db, refl, f)
insert_all_keeps ((id, prev, now) ∷ calls) db k m h f =
    let (db', e, h') = insert_continuation-Linked id prev now db h in
    let (end, g, there) =
      insert_all_keeps calls db' k m h' (insert_continuation_keeps id prev now db db' k m e f) in
    (end, rw (e, insert_all) g, there)

-- Out of order a continuation is lost. Where `b`, which continues `a`, is recorded before `a` itself,
-- `a` becomes the root of a chain, and stays it whatever calls follow, for any sessions, at any times
-- and also for `a`: none of them fails, and none gives `a` a predecessor.
pub continuation_lost :
    (a b : String) (now : ℕ) (calls : List (String × String × ℕ)) (db : SessionDb)
    → Linked db
    → find_node a db.continuation_chain_nodes ≡ none
    → find_node b db.continuation_chain_nodes ≡ none
    → (db' : SessionDb) × (end : SessionDb) × (insert_continuation b a now db ≡ some db')
      × (insert_all calls db' ≡ some end)
      × ((r : ChainNode) × (find_node a end.continuation_chain_nodes ≡ some r)
          × (r.prev_session_id ≡ none)
          × (r.chain_id ≡ a))
unfolding insert_continuation link
continuation_lost a b now calls db h fa fb =
    let (db', e, h') = insert_continuation-Linked b a now db h in
    let added = rw (fb, fa, open_chain_lem a now db h fa, insert_continuation) at e in
    let kept =
      add_node_keeps _ (opened a now db) db' a (root_node a now) added
        (find_node-opened a now db fa) in
    let (end, g, there) = insert_all_keeps calls db' a (root_node a now) h' kept in
    (db', end, e, g, (root_node a now, there, refl, refl))
