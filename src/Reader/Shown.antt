-- ===== src/Reader/Shown.antt =====
-- src/reader.rs, list_sessions_with_preview: the last message of each session with its preview. What
-- the adapter parses is a parameter.
use mathlib.Core.List.{reverse-append}
use ai_cli_session_db.Prelude.{
  ℕ, ◌≤◌, String, Text, List, [], ◌∷◌, ◌++◌, Option, none, some, Bool, map, take, length,
  length-take, ◌≡◌, refl, sym, subst, Option-cases, ap, ◌∙◌, inl, inr, Has, arith,
}
use ai_cli_session_db.Db.{MessageType, user, assistant, tool, system}
use ai_cli_session_db.Db.Listing.{first}
use ai_cli_session_db.Reader.Pages.{desc, missing, panicked, page, read_messages, read_messages_lem}
use ai_cli_session_db.Reader.Preview.{
  ContentBlock, truncate_chars, generate_preview_from_content_blocks, truncate_chars_short,
  length-generate_preview_from_content_blocks,
}
use ai_cli_session_db.Reader.Sessions.{SessionInfo, Cache, list_sessions}

-- A message that the adapter parsed: `raw` is the content array of its JSON, if it has a JSON and that
-- an array; `timestamp` the milliseconds that the time reads as, if it does.
pub record ParsedMessage : Type 0 where
  pub message_type : MessageType
  pub text : Text
  pub raw : Option (Option (List ContentBlock))
  pub timestamp : Option ℕ

abbrev pub generate_assistant_preview : Option (List ContentBlock) → Text → Text
generate_assistant_preview none fallback_text = truncate_chars fallback_text 100
generate_assistant_preview (some blocks) fallback_text = generate_preview_from_content_blocks blocks

abbrev pub preview_of : MessageType → Text → Option (Option (List ContentBlock)) → Text
preview_of user text raw = truncate_chars text 100
preview_of assistant text none = truncate_chars text 100
preview_of assistant text (some raw) = generate_assistant_preview raw text
preview_of tool text raw = take 100 text
preview_of system text raw = take 100 text

unfoldable pub generate_preview : ParsedMessage → Text
generate_preview m = preview_of m.message_type m.text m.raw

-- A read of one message without an offset never panics.
unfoldable pub read_last_message :
    (String → Option (List ParsedMessage)) → String → Option ParsedMessage
read_last_message parse session_path = elim (read_messages (parse session_path) 1 0 desc) [
  | missing ↦ none
  | panicked ↦ none
  | page r ↦ first r.messages
]

abbrev pub type_name : MessageType → String
type_name user = "user"
type_name assistant = "assistant"
type_name tool = "system"
type_name system = "system"

unfoldable pub with_preview : (String → Option (List ParsedMessage)) → SessionInfo → SessionInfo
with_preview parse s = elim s.session_path [
  | none ↦ s
  | some path ↦ elim (read_last_message parse path) [
    | none ↦ s
    | some m ↦ record s {
      last_message_type = some (type_name m.message_type);
      last_message_preview = some (generate_preview m);
      last_message_at = m.timestamp;
    }
  ]
]

unfoldable pub list_sessions_with_preview :
    (String → Option (List ParsedMessage))
    → Option (List SessionInfo)
    → Option String
    → Bool
    → Cache
    → List SessionInfo × Cache
list_sessions_with_preview parse listed project_path include_agents cache =
    let (ss, later) = list_sessions listed project_path include_agents cache in
    (map (with_preview parse) ss, later)

read_last_message-last :
    (parse : String → Option (List ParsedMessage)) (path : String) (ms : List ParsedMessage)
    (m : ParsedMessage)
    → parse path ≡ some (ms ++ m ∷ [])
    → read_last_message parse path ≡ some m
unfolding read_last_message
read_last_message-last parse path ms m e =
    rw
      (
        e,
        read_last_message,
        read_messages_lem (ms ++ m ∷ []) 1 0 desc (omega arith),
        reverse-append ms (m ∷ []),
      )
      refl

-- A preview is a hundred characters and three dots at most.
length-generate_preview : (m : ParsedMessage) → length (generate_preview m) ≤ 103
unfolding generate_preview
length-generate_preview m = from m.message_type m.text m.raw
  where
    from :
        (k : MessageType) (t : Text) (raw : Option (Option (List ContentBlock)))
        → length (preview_of k t raw) ≤ 103
    from user t raw = truncate_chars_short t
    from assistant t none = truncate_chars_short t
    from assistant t (some none) = truncate_chars_short t
    from assistant t (some (some blocks)) = length-generate_preview_from_content_blocks blocks
    from tool t raw = omega (arith, length-take 100 t)
    from system t raw = omega (arith, length-take 100 t)

-- What a session shows of the last message of its file.
pub record Shows (m : ParsedMessage) (s : SessionInfo) : Type 0 where
  pub preview : s.last_message_preview ≡ some (generate_preview m)
  pub short : length (generate_preview m) ≤ 103
  pub named : s.last_message_type ≡ some (type_name m.message_type)
  pub time : s.last_message_at ≡ m.timestamp

with_preview-id :
    (parse : String → Option (List ParsedMessage)) (o : SessionInfo)
    → (with_preview parse o).id ≡ o.id
unfolding with_preview
with_preview-id parse o = elim (Option-cases o.session_path) [
  | inl e ↦ rw (e, with_preview) refl
  | inr (path, e) ↦ elim (Option-cases (read_last_message parse path)) [
    | inl f ↦ rw (e, f, with_preview) refl
    | inr (m, f) ↦ rw (e, f, with_preview) refl
  ]
]

with_preview-Shows :
    (parse : String → Option (List ParsedMessage)) (o : SessionInfo) (path : String)
    (ms : List ParsedMessage) (m : ParsedMessage)
    → o.session_path ≡ some path
    → parse path ≡ some (ms ++ m ∷ [])
    → Shows m (with_preview parse o)
unfolding with_preview
with_preview-Shows parse o path ms m at_path parsed =
    let last = read_last_message-last parse path ms m parsed in
    record {
      preview = rw (at_path, last, with_preview) refl;
      short = length-generate_preview m;
      named = rw (at_path, last, with_preview) refl;
      time = rw (at_path, last, with_preview) refl;
    }

unmapped :
    (parse : String → Option (List ParsedMessage)) (s : SessionInfo) (os : List SessionInfo)
    → Has s (map (with_preview parse) os)
    → (o : SessionInfo) × Has o os × (s ≡ with_preview parse o)
unmapped parse s [] m = absurd m
unmapped parse s (o ∷ os) (inl e) = (o, inl refl, e)
unmapped parse s (o ∷ os) (inr m) = let (o', has, e) = unmapped parse s os m in (o', inr has, e)

-- A session of the list with previews is one of the list without, which the same call would make, and
-- where its file has messages it shows the last one: its type, its time, and its preview, which has
-- at most 103 characters.
pub list_sessions_with_preview-Shows :
    (parse : String → Option (List ParsedMessage)) (listed : Option (List SessionInfo))
    (project_path : Option String) (include_agents : Bool) (cache : Cache) (s : SessionInfo)
    → Has s (list_sessions_with_preview parse listed project_path include_agents cache).0
    → (o : SessionInfo) × Has o (list_sessions listed project_path include_agents cache).0
      × (s.id ≡ o.id)
      × ((path : String) (ms : List ParsedMessage) (m : ParsedMessage)
          → o.session_path ≡ some path
          → parse path ≡ some (ms ++ m ∷ [])
          → Shows m s)
unfolding list_sessions_with_preview
list_sessions_with_preview-Shows parse listed project_path include_agents cache s m =
    let (o, has, e) =
      unmapped parse s (list_sessions listed project_path include_agents cache).0 m in
    (
      o,
      has,
      ap (λ (x : SessionInfo). x.id) e ∙ with_preview-id parse o,
      λ path ms l at_path parsed.
          subst (Shows l) (sym e) (with_preview-Shows parse o path ms l at_path parsed),
    )
