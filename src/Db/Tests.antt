-- ===== src/Db/Tests.antt =====
-- The theorems of Db at concrete tables: two sessions, a few messages, one continuation chain.
pub mod Rows
use ai_cli_session_db.Prelude.{◌↔◌, Has}
use ai_cli_session_db.Prelude.Sorting.{Sorted}
use ai_cli_session_db.Prelude.{
  ℕ, String, List, [], ◌∷◌, none, some, true, ◌≡◌, ◌≢◌, refl, sym, ◌⊎◌, inl, inr, Has, codes, map,
  length, take, drop, retain, ◌&&◌, ◌+◌, ◌-◌, arith, subst,
}
use ai_cli_session_db.Db.{
  SessionDb, Session, Message, ChainNode, VectorIndexed, unindexed, failed, user, assistant,
}
use ai_cli_session_db.Prelude.{str_eq, not, if◌then◌else◌}
use ai_cli_session_db.Db.{pending, approved}
use ai_cli_session_db.Db.Projects.{
  project_id, get_or_create_project_with_encoded, get_or_create_project-stable, IsIdOf,
}
use ai_cli_session_db.Prelude.{suc}
use ai_cli_session_db.Db.Sessions.{
  SessionInput, find_session, merge_session, new_session, upserted, upsert_session_full,
}
use ai_cli_session_db.Db.Sessions.Upsert.{IsWritten, upsert_session_full-find}
use ai_cli_session_db.Db.Approvals.{
  has_uuid_of, get_pending_approvals, count_pending_approvals, batch_update_approval_status,
  batch_update-pending,
}
use ai_cli_session_db.Db.Messages.{
  MessageInput, insert_messages, get_session_message_count, refresh_count, insert_loop,
  insert_message, message_row,
}
use ai_cli_session_db.Db.Messages.Insert.{
  UniqueUuids, insert_messages-UniqueUuids, insert_messages_twice, insert_messages-length,
  insert_messages-counted,
}
use ai_cli_session_db.Db.Chains.{
  find_node, open_chain, link, add_node, add_chain, insert_continuation, get_continuation_chain,
  ContinuationChain,
}
use ai_cli_session_db.Db.Chains.Linked.{Linked, Hangs, root, below, insert_continuation-Linked}
use ai_cli_session_db.Db.Chains.Order.{
  ancestor, depth_root, get_continuation_chain-root, insert_continuation_once, continuation_lost,
  insert_all,
}
use ai_cli_session_db.Db.Index.{
  to_index, get_unindexed_messages, count_unindexed_messages, mark_messages_indexed, is_failed,
  is_assistant, reset_failed_indexed_messages, count_failed_indexed_messages,
}
use ai_cli_session_db.Db.Index.Queue.{mark_batch-queue, reset_failed-counts}

abbrev session : String → ℕ → Session
session name count = record {
  id = 1;
  session_id = name;
  project_id = 1;
  message_count = count;
  last_message_at = none;
  cwd = none;
  model = none;
  channel = none;
  file_mtime = none;
  file_size = none;
  file_offset = none;
  file_inode = none;
  meta = none;
  session_type = none;
  source = none;
  created_at = 1;
  updated_at = 1;
}

abbrev message : ℕ → String → VectorIndexed → Message
message id uuid v = record {
  id = id;
  session_id = "s1";
  uuid = uuid;
  msg_type = assistant;
  content_text = codes "text";
  content_full = codes "text";
  timestamp = id;
  sequence = id;
  source = none;
  channel = none;
  model = none;
  tool_call_id = none;
  tool_name = none;
  tool_args = none;
  raw = none;
  vector_indexed = v;
  approval_status = none;
  approval_resolved_at = none;
}

abbrev input : String → ℕ → MessageInput
input uuid n = record {
  uuid = uuid;
  msg_type = user;
  content_text = codes "hello";
  content_full = codes "hello";
  timestamp = n;
  sequence = n;
  source = none;
  channel = none;
  model = none;
  tool_call_id = none;
  tool_name = none;
  tool_args = none;
  raw = none;
  approval_status = none;
  approval_resolved_at = none;
}

abbrev table : SessionDb
table = record {
  foreign_keys = true;
  projects = [];
  sessions = session "s1" 0 ∷ session "s2" 4 ∷ [];
  messages = message 1 "u1" unindexed ∷ message 2 "u2" failed ∷ message 3 "u3" unindexed ∷ [];
  talks = [];
  session_relations = [];
  continuation_chains = [];
  continuation_chain_nodes = [];
  last_project_id = 1;
  last_session_id = 2;
  last_message_id = 3;
  last_talk_id = 0;
}

-- One uuid that is stored already, one that comes twice.
abbrev inputs : List MessageInput
inputs = input "u1" 7 ∷ input "u8" 8 ∷ input "u8" 9 ∷ []

unique : UniqueUuids table.messages
unique = (refl, (refl, (refl, tt)))

insert_messages_twice_example :
    let once = (insert_messages "s1" inputs 5 table).0 in
    let (twice, inserted, new_ids) = insert_messages "s1" inputs 6 once in
    (twice.messages ≡ once.messages) × (inserted ≡ 0) × (new_ids ≡ [])
insert_messages_twice_example = insert_messages_twice "s1" inputs 5 6 table

other_kept : Has (session "s2" 4) (insert_messages "s1" inputs 5 table).0.sessions
unfolding insert_messages refresh_count insert_loop insert_message message_row
other_kept = inr (inl refl)

insert_messages-counted_example :
    let done = (insert_messages "s1" inputs 5 table).0 in
    let other = session "s2" 4 in
    ((other.session_id ≡ "s1") × (other.message_count ≡ get_session_message_count "s1" done))
    ⊎ (Has other table.sessions × (other.session_id ≢ "s1"))
insert_messages-counted_example =
    insert_messages-counted "s1" inputs 5 table (session "s2" 4) other_kept

empty_Linked : Linked table
unfolding find_node
empty_Linked = record { hangs = λ id n e. cc; owned = λ id n e. cc; named = tt }

insert_continuation-Linked_example :
    (db' : SessionDb) × (insert_continuation "b" "a" 3 table ≡ some db') × Linked db'
insert_continuation-Linked_example = insert_continuation-Linked "b" "a" 3 table empty_Linked

abbrev node_a : ChainNode
node_a = record {
  session_id = "a";
  chain_id = "a";
  prev_session_id = none;
  depth = 0;
  created_at = 3;
}

abbrev node_b : ChainNode
node_b = record {
  session_id = "b";
  chain_id = "a";
  prev_session_id = some "a";
  depth = 1;
  created_at = 3;
}

abbrev chained : SessionDb
chained = record table {
  continuation_chains = record { chain_id = "a"; root_session_id = "a"; created_at = 3 } ∷ [];
  continuation_chain_nodes = node_a ∷ node_b ∷ [];
}

one_of_two :
    (id : String) (x y n : ChainNode) → find_node id (x ∷ y ∷ []) ≡ some n → (n ≡ x) ⊎ (n ≡ y)
unfolding find_node
one_of_two id x y n e = ground (arith, e)

chained-Linked : Linked chained
unfolding find_node
chained-Linked = record {
  hangs = λ id n e. elim (one_of_two id node_a node_b n e) [
    | inl q ↦ subst (Hangs (node_a ∷ node_b ∷ [])) (sym q) (root refl refl refl)
    | inr q ↦ subst (Hangs (node_a ∷ node_b ∷ [])) (sym q) (below "a" node_a refl refl refl refl)
  ];
  owned =
      λ id n e. elim (one_of_two id node_a node_b n e) [ inl q ↦ rw q refl | inr q ↦ rw q refl ];
  named = (refl, tt);
}

get_continuation_chain-root_example :
    (c : ContinuationChain) × (get_continuation_chain "b" chained ≡ some (some c))
    × (c.chain_id ≡ "a")
    × (c.root_session_id ≡ "a")
    × ((m : ChainNode)
        → Has m c.nodes ↔ (Has m chained.continuation_chain_nodes × (m.chain_id ≡ "a")))
    × Sorted (λ m. m.depth) c.nodes
    × (length c.nodes
        ≡ length (retain (λ m. str_eq m.chain_id "a") chained.continuation_chain_nodes))
unfolding find_node
get_continuation_chain-root_example =
    get_continuation_chain-root chained "b" node_b chained-Linked refl

continuation_lost_example :
    (db' : SessionDb) × (end : SessionDb) × (insert_continuation "b" "a" 3 table ≡ some db')
    × (insert_all (("a", "z", 4) ∷ ("z", "a", 5) ∷ ("a", "y", 6) ∷ []) db' ≡ some end)
    × ((r : ChainNode) × (find_node "a" end.continuation_chain_nodes ≡ some r)
        × (r.prev_session_id ≡ none)
        × (r.chain_id ≡ "a"))
unfolding find_node
continuation_lost_example =
    continuation_lost "a" "b" 3 (("a", "z", 4) ∷ ("z", "a", 5) ∷ ("a", "y", 6) ∷ []) table
      empty_Linked refl refl

mark_batch-queue_example :
    let batch = get_unindexed_messages 1 table in
    let marked = (mark_messages_indexed (map (λ m. m.id) batch) table).0 in
    (get_unindexed_messages 5 marked ≡ take 5 (drop 1 (retain to_index table.messages)))
    × (count_unindexed_messages marked ≡ count_unindexed_messages table - 1)
mark_batch-queue_example =
    mark_batch-queue 1 5 table ((omega arith, (omega arith, tt)), ((omega arith, tt), (tt, tt)))

get_or_create_project-stable_example :
    let (done, id) = get_or_create_project_with_encoded "p" "/p" "claude" none 5 table in
    IsIdOf (project_id "/p" table.projects) (suc table.last_project_id) id
    × (project_id "/q" done.projects
        ≡ (if str_eq "/p" "/q" then some id else project_id "/q" table.projects))
    × ((get_or_create_project_with_encoded "q" "/p" "codex" (some "-p") 9 done).1 ≡ id)
get_or_create_project-stable_example =
    get_or_create_project-stable "p" "/p" "claude" "/q" none 5 table "q" "codex" (some "-p") 9

-- A table with two messages that wait.
abbrev waiting : SessionDb
waiting = record table {
  messages =
      record (message 1 "u1" unindexed) { approval_status = some pending }
      ∷ record (message 2 "u2" failed) { approval_status = some pending }
      ∷ [];
}

batch_update-pending_example :
    let done = (batch_update_approval_status ("u1" ∷ []) approved 8 waiting).0 in
    (get_pending_approvals "s1" done
      ≡ retain (λ m. not (has_uuid_of ("u1" ∷ []) m)) (get_pending_approvals "s1" waiting))
    × (count_pending_approvals (some "s1") done ≡ length (get_pending_approvals "s1" done))
batch_update-pending_example = batch_update-pending ("u1" ∷ []) approved 8 "s1" waiting refl

-- A later look at the session s2, which has grown by three messages and has a model now.
abbrev grown : SessionInput
grown = record {
  session_id = "s2";
  project_id = 9;
  cwd = none;
  model = some "opus";
  channel = none;
  message_count = some 7;
  file_mtime = none;
  file_size = none;
  file_offset = none;
  file_inode = none;
  meta = none;
  session_type = none;
  source = none;
}

abbrev after_growth : SessionDb
after_growth = record table {
  sessions = session "s1" 0 ∷ record (session "s2" 7) { model = some "opus"; updated_at = 5 } ∷ [];
}

upsert_run : upsert_session_full grown 5 table ≡ some after_growth
unfolding upsert_session_full find_session merge_session new_session
upsert_run = refl

upsert_session_full-find_example :
    (count : ℕ) × (row : Session) × (some 7 ≡ some count)
    × IsWritten grown count 5 (find_session "s2" table.sessions) row
    × (find_session "s2" after_growth.sessions
        ≡ (if str_eq "s2" "s2" then some row else find_session "s2" table.sessions))
upsert_session_full-find_example =
    upsert_session_full-find grown 5 table after_growth "s2" upsert_run
