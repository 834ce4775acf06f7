-- ===== src/Db/Chains.antt =====
-- src/db.rs, continuation chains: which session continues which. `none` is an error of SQLite: a
-- foreign key that fails, or a row that is missing where the source expects one.
pub mod Linked
pub mod Order
use ai_cli_session_db.Prelude.{
  ℕ, suc, String, List, [], ◌∷◌, ◌++◌, Option, none, some, Bool, not, ◌&&◌, ◌||◌, any, retain,
  str_eq, if◌then◌else◌,
}
use ai_cli_session_db.Prelude.Sorting.{sort_by}
use ai_cli_session_db.Db.{SessionDb, Chain, ChainNode}

-- `WHERE session_id = ?1` on the primary key.
unfoldable pub find_node : String → List ChainNode → Option ChainNode
find_node id [] = none
find_node id (n ∷ ns) = if str_eq n.session_id id then some n else find_node id ns

unfoldable pub find_chain : String → List Chain → Option Chain
find_chain id [] = none
find_chain id (c ∷ cs) = if str_eq c.chain_id id then some c else find_chain id cs

-- `INSERT OR IGNORE INTO continuation_chains`: both columns are unique.
unfoldable pub add_chain : Chain → List Chain → List Chain
add_chain c cs =
    if any (λ d. str_eq d.chain_id c.chain_id || str_eq d.root_session_id c.root_session_id) cs
    then cs
    else cs ++ c ∷ []

-- `INSERT OR IGNORE INTO continuation_chain_nodes`: the foreign key is not among what is ignored.
unfoldable pub add_node : ChainNode → SessionDb → Option SessionDb
add_node n db = elim (find_node n.session_id db.continuation_chain_nodes) [
  | some old ↦ some db
  | none ↦
      if db.foreign_keys && not (any (λ d. str_eq d.chain_id n.chain_id) db.continuation_chains)
      then none
      else some (record db { continuation_chain_nodes = db.continuation_chain_nodes ++ n ∷ [] })
]

-- The root of a new chain, which is named after it.
unfoldable pub open_chain : String → ℕ → SessionDb → Option SessionDb
open_chain prev now db =
    add_node
      (record {
        session_id = prev;
        chain_id = prev;
        prev_session_id = none;
        depth = 0;
        created_at = now;
      })
      (record db {
        continuation_chains =
            add_chain (record { chain_id = prev; root_session_id = prev; created_at = now })
              db.continuation_chains;
      })

unfoldable pub link : String → String → String → ℕ → ℕ → SessionDb → Option SessionDb
link session_id chain_id prev depth now db =
    add_node
      (record {
        session_id = session_id;
        chain_id = chain_id;
        prev_session_id = some prev;
        depth = depth;
        created_at = now;
      })
      db

-- `SessionDB::insert_continuation`.
unfoldable pub insert_continuation : String → String → ℕ → SessionDb → Option SessionDb
insert_continuation session_id prev now db =
    elim (find_node session_id db.continuation_chain_nodes) [
      | some old ↦ some db
      | none ↦ elim (find_node prev db.continuation_chain_nodes) [
        | some p ↦ link session_id p.chain_id prev (suc p.depth) now db
        | none ↦ elim (open_chain prev now db) [
          | none ↦ none
          | some db' ↦ link session_id prev prev 1 now db'
        ]
      ]
    ]

pub record ContinuationChain : Type 0 where
  pub chain_id : String
  pub root_session_id : String
  pub nodes : List ChainNode
  pub created_at : ℕ

-- A chain's row with its nodes, `ORDER BY depth, created_at`: two stable sorts.
abbrev pub assemble : Chain → String → SessionDb → ContinuationChain
assemble c chain_id db = record {
  chain_id = chain_id;
  root_session_id = c.root_session_id;
  nodes =
      sort_by (λ m. m.depth)
        (sort_by (λ m. m.created_at)
          (retain (λ m. str_eq m.chain_id chain_id) db.continuation_chain_nodes));
  created_at = c.created_at;
}

-- `SessionDB::get_continuation_chain`: the outer option is the error.
unfoldable pub get_continuation_chain : String → SessionDb → Option (Option ContinuationChain)
get_continuation_chain session_id db = elim (find_node session_id db.continuation_chain_nodes) [
  | none ↦ some none
  | some n ↦ elim (find_chain n.chain_id db.continuation_chains) [
    | none ↦ none
    | some c ↦ some (some (assemble c n.chain_id db))
  ]
]
