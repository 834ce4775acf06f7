-- ===== src/Db/Approvals.antt =====
-- src/db.rs, the approval state of messages.
use ai_cli_session_db.Prelude.{
  ℕ, String, List, [], ◌∷◌, Option, none, some, Bool, true, false, not, ◌&&◌, ◌≡◌, refl, sym, ap,
  ◌∙◌, inl, inr, map, any, retain, length, is_empty, is_some_and, str_eq, if◌then◌else◌, Bool-cases,
  arith,
}
use ai_cli_session_db.Prelude.Sorting.{sort_by, sort_by-retain, length-sort_by}
use ai_cli_session_db.Db.{SessionDb, Message, ApprovalStatus, pending, approved, rejected, timeout}
use ai_cli_session_db.Db.Messages.{in_session}

abbrev pub is_pending : Option ApprovalStatus → Bool
is_pending none = false
is_pending (some pending) = true
is_pending (some approved) = false
is_pending (some rejected) = false
is_pending (some timeout) = false

-- `WHERE session_id = ?1 AND approval_status = 'pending' ORDER BY sequence ASC`.
unfoldable pub get_pending_approvals : String → SessionDb → List Message
get_pending_approvals id db =
    sort_by (λ m. m.sequence)
      (retain (λ m. is_pending m.approval_status) (in_session id db.messages))

-- `SET approval_status = ?1, approval_resolved_at = ?2 WHERE …`: a row that was resolved before is
-- written again.
abbrev pub resolve : (Message → Bool) → ApprovalStatus → ℕ → Message → Message
resolve p status at m =
    if p m then record m { approval_status = some status; approval_resolved_at = some at } else m

unfoldable pub update_approvals : (Message → Bool) → ApprovalStatus → ℕ → SessionDb → SessionDb × ℕ
update_approvals p status at db =
    (record db { messages = map (resolve p status at) db.messages }, length (retain p db.messages))

unfoldable pub update_approval_status : String → ApprovalStatus → ℕ → SessionDb → SessionDb × ℕ
unfolding update_approvals
update_approval_status uuid status at db = update_approvals (λ m. str_eq m.uuid uuid) status at db

unfoldable pub update_approval_status_by_tool_call_id :
    String → ApprovalStatus → ℕ → SessionDb → SessionDb × ℕ
unfolding update_approvals
update_approval_status_by_tool_call_id call status at db =
    update_approvals (λ m. is_some_and m.tool_call_id (λ c. str_eq c call)) status at db

abbrev pub has_uuid_of : List String → Message → Bool
has_uuid_of uuids m = any (λ u. str_eq m.uuid u) uuids

unfoldable pub batch_update_approval_status :
    List String → ApprovalStatus → ℕ → SessionDb → SessionDb × ℕ
unfolding update_approvals
batch_update_approval_status uuids status at db =
    if is_empty uuids then (db, 0) else update_approvals (has_uuid_of uuids) status at db

-- With a session, its own; without, all.
unfoldable pub count_pending_approvals : Option String → SessionDb → ℕ
count_pending_approvals none db = length (retain (λ m. is_pending m.approval_status) db.messages)
count_pending_approvals (some id) db =
    length (retain (λ m. is_pending m.approval_status && str_eq m.session_id id) db.messages)

abbrev waits : String → Message → Bool
waits id m = is_pending m.approval_status && str_eq m.session_id id

pending_rows :
    (id : String) (ms : List Message)
    → retain (λ m. is_pending m.approval_status) (in_session id ms) ≡ retain (waits id) ms
pending_rows id [] = refl
pending_rows id (m ∷ ms) = ground (arith, pending_rows id ms)

-- A row that was resolved waits no more, any other as before.
resolve-waits :
    (id : String) (p : Message → Bool) (status : ApprovalStatus) (at : ℕ) (ms : List Message)
    → is_pending (some status) ≡ false
    → retain (waits id) (map (resolve p status at) ms)
      ≡ retain (λ m. not (p m)) (retain (waits id) ms)
resolve-waits id p status at [] h = refl
resolve-waits id p status at (m ∷ ms) h = elim (Bool-cases (p m)) [
  | inl e ↦ ground (arith, e, h, resolve-waits id p status at ms h)
  | inr e ↦ ground (arith, e, resolve-waits id p status at ms h)
]

nothing_resolved :
    (status : ApprovalStatus) (at : ℕ) (ms : List Message)
    → map (resolve (has_uuid_of []) status at) ms ≡ ms
nothing_resolved status at [] = refl
nothing_resolved status at (m ∷ ms) = ap (◌∷◌ m) (nothing_resolved status at ms)

batch-messages :
    (uuids : List String) (status : ApprovalStatus) (at : ℕ) (db : SessionDb)
    → (batch_update_approval_status uuids status at db).0.messages
      ≡ map (resolve (has_uuid_of uuids) status at) db.messages
unfolding batch_update_approval_status update_approvals
batch-messages [] status at db = sym (nothing_resolved status at db.messages)
batch-messages (u ∷ us) status at db = refl

-- Resolving messages by their uuids, to anything but pending, leaves in the pending list of every
-- session exactly the messages that were in it and were not named, in their old order, and the
-- count of the session is the length of that list.
pub batch_update-pending :
    (uuids : List String) (status : ApprovalStatus) (at : ℕ) (id : String) (db : SessionDb)
    → is_pending (some status) ≡ false
    → let done = (batch_update_approval_status uuids status at db).0 in
      (get_pending_approvals id done
        ≡ retain (λ m. not (has_uuid_of uuids m)) (get_pending_approvals id db))
      × (count_pending_approvals (some id) done ≡ length (get_pending_approvals id done))
unfolding get_pending_approvals count_pending_approvals
batch_update-pending uuids status at id db h =
    let done = (batch_update_approval_status uuids status at db).0 in
    let keep : Message → Bool = λ m. not (has_uuid_of uuids m) in
    let rows =
      pending_rows id done.messages
      ∙ ap (retain (waits id)) (batch-messages uuids status at db)
      ∙ resolve-waits id (has_uuid_of uuids) status at db.messages h
      ∙ ap (retain keep) (sym (pending_rows id db.messages)) in
    (
      ap (sort_by (λ m. m.sequence)) rows
          ∙ sort_by-retain (λ m. m.sequence) keep
              (retain (λ m. is_pending m.approval_status) (in_session id db.messages)),
      ap length (sym (pending_rows id done.messages))
          ∙ sym (
              length-sort_by (λ m. m.sequence)
                (retain (λ m. is_pending m.approval_status) (in_session id done.messages))),
    )
