-- ===== src/Db/Sound.antt =====
-- src/db.rs: the invariants of the message table and of the chains, and what leaves them alone.
use ai_cli_session_db.Prelude.{
  ℕ, String, List, [], ◌∷◌, Option, some, true, ◌≡◌, refl, sym, ◌∙◌, str_eq, arith, subst, any, All,
}
use ai_cli_session_db.Db.{Chain, ChainNode, SessionDb}
use ai_cli_session_db.Db.Messages.{
  MessageInput, insert_messages, insert_loop, insert_message, refresh_count,
}
use ai_cli_session_db.Db.Messages.Insert.{UniqueUuids, insert_messages-UniqueUuids}
use ai_cli_session_db.Db.Chains.{find_node}
use ai_cli_session_db.Db.Chains.Linked.{Hangs, Linked}
use ai_cli_session_db.Db.Projects.{get_or_create_project_with_encoded}
use ai_cli_session_db.Db.Sessions.{SessionInput, upsert_session_full}

-- The invariants of the message table and of the chains.
abbrev pub IsSound : SessionDb → Type 0
IsSound db = Linked db × UniqueUuids db.messages

-- What an operation leaves alone.
abbrev pub Untouched : SessionDb → SessionDb → Type 0
Untouched db done =
    (done.messages ≡ db.messages)
    × (done.continuation_chains ≡ db.continuation_chains)
    × (done.continuation_chain_nodes ≡ db.continuation_chain_nodes)

pub Linked-same :
    (db done : SessionDb)
    → done.continuation_chains ≡ db.continuation_chains
    → done.continuation_chain_nodes ≡ db.continuation_chain_nodes
    → Linked db
    → Linked done
Linked-same db done c n h = record {
  hangs =
      subst (λ ns. (id : String) (x : ChainNode) → find_node id ns ≡ some x → Hangs ns x) (sym n)
        h.hangs;
  owned =
      subst
        (λ ns.
          (id : String) (x : ChainNode)
          → find_node id ns ≡ some x
          → any (λ (d : Chain). str_eq d.chain_id x.chain_id) done.continuation_chains ≡ true)
        (sym n)
        (subst
          (λ cs.
            (id : String) (x : ChainNode)
            → find_node id db.continuation_chain_nodes ≡ some x
            → any (λ (d : Chain). str_eq d.chain_id x.chain_id) cs ≡ true)
          (sym c) h.owned);
  named = subst (λ cs. All (λ (d : Chain). d.chain_id ≡ d.root_session_id) cs) (sym c) h.named;
}

pub IsSound-Untouched : (db done : SessionDb) → Untouched db done → IsSound db → IsSound done
IsSound-Untouched db done (m, c, n) (l, u) = (Linked-same db done c n l, rw m u)

pub project-Untouched :
    (name path source : String) (encoded : Option String) (now : ℕ) (db : SessionDb)
    → Untouched db (get_or_create_project_with_encoded name path source encoded now db).0
unfolding get_or_create_project_with_encoded
project-Untouched name path source encoded now db = ground arith

pub upsert_session-Untouched :
    (i : SessionInput) (now : ℕ) (db done : SessionDb)
    → upsert_session_full i now db ≡ some done
    → Untouched db done
unfolding upsert_session_full
upsert_session-Untouched i now db done e = ground arith

insert_loop-Untouched :
    (id : String) (db : SessionDb) (msgs : List MessageInput)
    → ((insert_loop id db msgs).0.continuation_chains ≡ db.continuation_chains)
      × ((insert_loop id db msgs).0.continuation_chain_nodes ≡ db.continuation_chain_nodes)
unfolding insert_loop
insert_loop-Untouched id db [] = (refl, refl)
insert_loop-Untouched id db (msg ∷ msgs) =
    let rest = insert_loop-Untouched id (insert_message id db msg).0 msgs in
    (rest.0 ∙ kept.0, rest.1 ∙ kept.1)
  where
    kept :
        ((insert_message id db msg).0.continuation_chains ≡ db.continuation_chains)
        × ((insert_message id db msg).0.continuation_chain_nodes ≡ db.continuation_chain_nodes)
    kept = unfold insert_message in ground arith

pub insert_messages-IsSound :
    (id : String) (msgs : List MessageInput) (now : ℕ) (db : SessionDb)
    → IsSound db
    → IsSound (insert_messages id msgs now db).0
insert_messages-IsSound id msgs now db (l, u) = (
  Linked-same db (insert_messages id msgs now db).0 (chains msgs).0 (chains msgs).1 l,
  insert_messages-UniqueUuids id msgs now db u,
)
  where
    chains :
        (ms : List MessageInput)
        → ((insert_messages id ms now db).0.continuation_chains ≡ db.continuation_chains)
          × ((insert_messages id ms now db).0.continuation_chain_nodes
              ≡ db.continuation_chain_nodes)
    chains ms = unfold insert_messages in unfold refresh_count in insert_loop-Untouched id db ms
