-- ===== src/Db/Chains/Linked.antt =====
-- Every node of a continuation chain (src/db.rs) hangs on its predecessor, down to the chain's root.
use ai_cli_session_db.Prelude.{
  ℕ, suc, String, List, [], ◌∷◌, ◌++◌, none, some, Bool, true, ◌||◌, ◌≡◌, refl, ◌⊎◌, inl, inr, any,
  str_eq, str_eq_iff, str_eq_refl, if◌then◌else◌, Option-cases, arith, All,
}
use ai_cli_session_db.Db.{SessionDb, Chain, ChainNode}
use ai_cli_session_db.Db.Chains.{
  find_node, add_chain, add_node, open_chain, link, insert_continuation,
}

-- A node is a root of depth 0, after which its chain is named, or it stands one below its
-- predecessor in the same chain.
pub data Hangs (nodes : List ChainNode) (n : ChainNode) : Type 0 where
  root : n.prev_session_id ≡ none → n.depth ≡ 0 → n.session_id ≡ n.chain_id → Hangs nodes n
  below :
      (p : String) (q : ChainNode)
      → n.prev_session_id ≡ some p
      → find_node p nodes ≡ some q
      → q.chain_id ≡ n.chain_id
      → n.depth ≡ suc q.depth
      → Hangs nodes n

pub record Linked (db : SessionDb) : Type 0 where
  pub hangs :
      (id : String) (n : ChainNode)
      → find_node id db.continuation_chain_nodes ≡ some n
      → Hangs db.continuation_chain_nodes n
  pub owned :
      (id : String) (n : ChainNode)
      → find_node id db.continuation_chain_nodes ≡ some n
      → any (λ d. str_eq d.chain_id n.chain_id) db.continuation_chains ≡ true
  pub named : All (λ (c : Chain). c.chain_id ≡ c.root_session_id) db.continuation_chains

pub find_node-snoc :
    (id : String) (ns : List ChainNode) (n : ChainNode)
    → find_node id (ns ++ n ∷ []) ≡ elim (find_node id ns) [
      | some m ↦ some m
      | none ↦ if str_eq n.session_id id then some n else none
    ]
unfolding find_node
find_node-snoc id [] n = ground arith
find_node-snoc id (m ∷ ns) n = ground (arith, find_node-snoc id ns n)

pub find_node-session_id :
    (id : String) (ns : List ChainNode) (n : ChainNode)
    → find_node id ns ≡ some n
    → n.session_id ≡ id
unfolding find_node
find_node-session_id id [] n e = cc
find_node-session_id id (m ∷ ns) n e =
    ground (arith, str_eq_iff m.session_id id, find_node-session_id id ns n)

pub find_node_later :
    (id : String) (ns : List ChainNode) (n m : ChainNode)
    → find_node id ns ≡ some m
    → find_node id (ns ++ n ∷ []) ≡ some m
find_node_later id ns n m e = ground (arith, find_node-snoc id ns n)

Hangs-later : (ns : List ChainNode) (n m : ChainNode) → Hangs ns m → Hangs (ns ++ n ∷ []) m
Hangs-later ns n m (root e d s) = root e d s
Hangs-later ns n m (below p q e f c d) = below p q e (find_node_later p ns n q f) c d

found_snoc :
    (id : String) (ns : List ChainNode) (n m : ChainNode)
    → find_node id (ns ++ n ∷ []) ≡ some m
    → (find_node id ns ≡ some m) ⊎ (m ≡ n)
found_snoc id ns n m e = ground (arith, find_node-snoc id ns n)

Linked-snoc :
    (n : ChainNode) (db : SessionDb)
    → Linked db
    → Hangs db.continuation_chain_nodes n
    → any (λ d. str_eq d.chain_id n.chain_id) db.continuation_chains ≡ true
    → Linked (record db { continuation_chain_nodes = db.continuation_chain_nodes ++ n ∷ [] })
Linked-snoc n db h hang own = record {
  hangs = λ id m e. elim (found_snoc id db.continuation_chain_nodes n m e) [
    | inl old ↦ Hangs-later db.continuation_chain_nodes n m (h.hangs id m old)
    | inr new ↦ rw new (Hangs-later db.continuation_chain_nodes n n hang)
  ];
  owned = λ id m e. elim (found_snoc id db.continuation_chain_nodes n m e) [
    | inl old ↦ h.owned id m old
    | inr new ↦ rw new own
  ];
  named = h.named;
}

abbrev snoc_node : ChainNode → SessionDb → SessionDb
snoc_node n db = record db { continuation_chain_nodes = db.continuation_chain_nodes ++ n ∷ [] }

add_node_new :
    (n : ChainNode) (db : SessionDb)
    → find_node n.session_id db.continuation_chain_nodes ≡ none
    → any (λ d. str_eq d.chain_id n.chain_id) db.continuation_chains ≡ true
    → add_node n db ≡ some (snoc_node n db)
unfolding add_node
add_node_new n db e own = rw (e, add_node) (rw own (ground arith))

-- Adding a node that hangs on the table, in a chain that exists, succeeds and keeps the table linked.
add_node-Linked :
    (n : ChainNode) (db : SessionDb)
    → Linked db
    → Hangs db.continuation_chain_nodes n
    → any (λ d. str_eq d.chain_id n.chain_id) db.continuation_chains ≡ true
    → (db' : SessionDb) × (add_node n db ≡ some db') × Linked db'
unfolding add_node
add_node-Linked n db h hang own =
    elim (Option-cases (find_node n.session_id db.continuation_chain_nodes)) [
      | inr (old, e) ↦ (db, rw (e, add_node), h)
      | inl e ↦ (snoc_node n db, add_node_new n db e own, Linked-snoc n db h hang own)
    ]

abbrev has_chain : String → List Chain → Bool
has_chain id cs = any (λ d. str_eq d.chain_id id) cs

HasChain-snoc :
    (id : String) (cs : List Chain) (c : Chain)
    → has_chain id (cs ++ c ∷ []) ≡ (has_chain id cs || str_eq c.chain_id id)
HasChain-snoc id [] c = ground arith
HasChain-snoc id (d ∷ cs) c = ground (arith, HasChain-snoc id cs c)

HasChain-add_chain :
    (id : String) (c : Chain) (cs : List Chain)
    → has_chain id cs ≡ true
    → has_chain id (add_chain c cs) ≡ true
unfolding add_chain
HasChain-add_chain id c cs e = ground (arith, HasChain-snoc id cs c)

-- Where chains are named after their roots, a clash of either column is a clash of the names.
clash_named :
    (c : Chain) (cs : List Chain)
    → c.chain_id ≡ c.root_session_id
    → All (λ (d : Chain). d.chain_id ≡ d.root_session_id) cs
    → any (λ d. str_eq d.chain_id c.chain_id || str_eq d.root_session_id c.root_session_id) cs
      ≡ true
    → has_chain c.chain_id cs ≡ true
clash_named c [] q h e = e
clash_named c (d ∷ cs) q h e = ground (
  arith,
  clash_named c cs q h.1,
  str_eq_iff d.chain_id c.chain_id,
  str_eq_iff d.root_session_id c.root_session_id,
  h.0,
)

add_chain-HasChain :
    (c : Chain) (cs : List Chain)
    → c.chain_id ≡ c.root_session_id
    → All (λ (d : Chain). d.chain_id ≡ d.root_session_id) cs
    → has_chain c.chain_id (add_chain c cs) ≡ true
unfolding add_chain
add_chain-HasChain c cs q h =
    ground (arith, clash_named c cs q h, HasChain-snoc c.chain_id cs c, str_eq_refl c.chain_id)

All-snoc :
    (cs : List Chain) (c : Chain)
    → All (λ (d : Chain). d.chain_id ≡ d.root_session_id) cs
    → c.chain_id ≡ c.root_session_id
    → All (λ (d : Chain). d.chain_id ≡ d.root_session_id) (cs ++ c ∷ [])
All-snoc [] c h q = (q, tt)
All-snoc (d ∷ cs) c h q = (h.0, All-snoc cs c h.1 q)

named-add_chain :
    (c : Chain) (cs : List Chain)
    → c.chain_id ≡ c.root_session_id
    → All (λ (d : Chain). d.chain_id ≡ d.root_session_id) cs
    → All (λ (d : Chain). d.chain_id ≡ d.root_session_id) (add_chain c cs)
unfolding add_chain
named-add_chain c cs q h = ground (arith, All-snoc cs c h q)

Linked-add_chain :
    (c : Chain) (db : SessionDb)
    → c.chain_id ≡ c.root_session_id
    → Linked db
    → Linked (record db { continuation_chains = add_chain c db.continuation_chains })
Linked-add_chain c db q h = record {
  hangs = h.hangs;
  owned = λ id n e. HasChain-add_chain n.chain_id c db.continuation_chains (h.owned id n e);
  named = named-add_chain c db.continuation_chains q h.named;
}

abbrev pub root_node : String → ℕ → ChainNode
root_node prev now = record {
  session_id = prev;
  chain_id = prev;
  prev_session_id = none;
  depth = 0;
  created_at = now;
}

abbrev with_chain : String → ℕ → SessionDb → SessionDb
with_chain prev now db = record db {
  continuation_chains =
      add_chain (record { chain_id = prev; root_session_id = prev; created_at = now })
        db.continuation_chains;
}

-- The table after a new chain has been opened.
abbrev pub opened : String → ℕ → SessionDb → SessionDb
opened prev now db = snoc_node (root_node prev now) (with_chain prev now db)

opened_owns :
    (prev : String) (now : ℕ) (db : SessionDb)
    → Linked db
    → has_chain prev (with_chain prev now db).continuation_chains ≡ true
opened_owns prev now db h =
    add_chain-HasChain (record { chain_id = prev; root_session_id = prev; created_at = now })
      db.continuation_chains refl h.named

pub open_chain_lem :
    (prev : String) (now : ℕ) (db : SessionDb)
    → Linked db
    → find_node prev db.continuation_chain_nodes ≡ none
    → open_chain prev now db ≡ some (opened prev now db)
unfolding open_chain
open_chain_lem prev now db h e =
    add_node_new (root_node prev now) (with_chain prev now db) e (opened_owns prev now db h)

opened-Linked : (prev : String) (now : ℕ) (db : SessionDb) → Linked db → Linked (opened prev now db)
opened-Linked prev now db h =
    Linked-snoc (root_node prev now) (with_chain prev now db)
      (Linked-add_chain (record { chain_id = prev; root_session_id = prev; created_at = now }) db
        refl h)
      (root refl refl refl) (opened_owns prev now db h)

pub find_node-opened :
    (prev : String) (now : ℕ) (db : SessionDb)
    → find_node prev db.continuation_chain_nodes ≡ none
    → find_node prev (opened prev now db).continuation_chain_nodes ≡ some (root_node prev now)
find_node-opened prev now db e =
    ground (
      arith,
      find_node-snoc prev db.continuation_chain_nodes (root_node prev now),
      str_eq_refl prev,
    )

-- Linking a session to a node of the table succeeds and keeps the table linked.
link-Linked :
    (id prev : String) (p : ChainNode) (now : ℕ) (db : SessionDb)
    → Linked db
    → find_node prev db.continuation_chain_nodes ≡ some p
    → (db' : SessionDb) × (link id p.chain_id prev (suc p.depth) now db ≡ some db') × Linked db'
unfolding link
link-Linked id prev p now db h e =
    add_node-Linked _ db h (below prev p refl e refl refl) (h.owned prev p e)

-- On a linked table `insert_continuation` never fails, and leaves a linked table.
pub insert_continuation-Linked :
    (id prev : String) (now : ℕ) (db : SessionDb)
    → Linked db
    → (db' : SessionDb) × (insert_continuation id prev now db ≡ some db') × Linked db'
unfolding insert_continuation
insert_continuation-Linked id prev now db h =
    elim (Option-cases (find_node id db.continuation_chain_nodes)) [
      | inr (old, e) ↦ (db, rw (e, insert_continuation), h)
      | inl e ↦ elim (Option-cases (find_node prev db.continuation_chain_nodes)) [
        | inr (p, f) ↦
            let r = link-Linked id prev p now db h f in
            (r.0, rw (e, f, insert_continuation) r.1, r.2)
        | inl f ↦
            let r =
              link-Linked id prev (root_node prev now) now (opened prev now db)
                (opened-Linked prev now db h) (find_node-opened prev now db f) in
            (r.0, rw (e, f, open_chain_lem prev now db h f, insert_continuation) r.1, r.2)
      ]
    ]
