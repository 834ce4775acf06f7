-- ===== src/Reader/Preview.antt =====
-- The previews of messages: src/reader.rs, and `truncate_preview` of src/db.rs.
use mathlib.Core.Option
use ai_cli_session_db.Prelude.{
  String, codes, str_eq, reverse, ℕ, ◌+◌, ◌-◌, ◌≤◌, Text, List, [], ◌∷◌, ◌++◌, Option, none, some,
  Bool, true, false, not, ◌&&◌, ◌||◌, ◌≡◌, ltb, leb, ◌==◌, if◌then◌else◌, length, take, retain,
  is_empty, length-take, length-append, arith,
}
use ai_cli_session_db.Prelude.Lines.{split_whitespace}

-- "...".
abbrev pub dots : Text
dots = 46 ∷ 46 ∷ 46 ∷ []

unfoldable pub truncate_chars : Text → ℕ → Text
truncate_chars s max_chars =
    let chars = take max_chars s in if ltb max_chars (length s) then chars ++ dots else chars

abbrev pub is_dot : Text → Bool
is_dot [] = false
is_dot (c ∷ []) = c == 46
is_dot (c ∷ d ∷ cs) = false

abbrev pub is_dots : Text → Bool
is_dots [] = false
is_dots (c ∷ []) = false
is_dots (c ∷ d ∷ []) = c == 46 && d == 46
is_dots (c ∷ d ∷ e ∷ cs) = false

-- `char::is_control`: the general category Cc.
abbrev pub is_control : ℕ → Bool
is_control c = ltb c 32 || (leb 127 c && ltb c 160)

-- `join(" ")`.
abbrev pub join_words : List Text → Text
join_words [] = []
join_words (w ∷ []) = w
join_words (w ∷ v ∷ vs) = w ++ 32 ∷ join_words (v ∷ vs)

abbrev pub clean : Text → Text
clean text = join_words (split_whitespace (retain (λ c. not (is_control c) || c == 32) text))

-- `truncate_preview` of src/db.rs; the source calls it with 100, and a limit below 3 would underflow.
unfoldable pub truncate_preview : Text → ℕ → Text
truncate_preview text max_chars =
    let cleaned = clean text in
    if ltb max_chars (length cleaned) then take (max_chars - 3) cleaned ++ dots else cleaned

-- The parts of a path between its separators, without the empty ones and ".".
abbrev pub parts_from : Text → Text → List Text
parts_from word [] = if is_empty word || is_dot word then [] else word ∷ []
parts_from word (c ∷ cs) =
    let next = parts_from [] cs in
    let longer = parts_from (word ++ c ∷ []) cs in
    if c == 47 then (if is_empty word || is_dot word then next else word ∷ next) else longer

-- `Path::file_name`: the last part, unless it is "..".
abbrev pub file_name : Text → Option Text
file_name path = elim (reverse (parts_from [] path)) [
  | [] ↦ none
  | part ∷ parts ↦ if is_dots part then none else some part
]

-- The fields of an input that the preview reads, where they are strings.
pub record ToolInput : Type 0 where
  pub command : Option Text
  pub file_path : Option Text
  pub pattern_text : Option Text

abbrev pub name_or_path : Text → Text
name_or_path path = elim (file_name path) [ none ↦ path | some name ↦ name ]

abbrev pub parameter_of : String → ToolInput → Option Text
parameter_of name input =
    if str_eq name "Bash"
    then input.command
    else if str_eq name "Read" || (str_eq name "Write" || str_eq name "Edit")
    then Option.map name_or_path input.file_path
    else if str_eq name "Glob" || str_eq name "Grep"
    then input.pattern_text
    else none

-- The sign of a tool, U+1F527, stands before its name.
unfoldable pub generate_tool_use_preview : String → Option ToolInput → Text
unfolding truncate_chars
generate_tool_use_preview name input =
    let title = 0x1f527 ∷ 32 ∷ codes name in
    elim (Option.bind input (parameter_of name)) [
      | none ↦ title
      | some s ↦ title ++ 58 ∷ 32 ∷ truncate_chars s 30
    ]

-- A block of an assistant message: its `type`, with the fields that the preview reads.
pub data ContentBlock : Type 0 where
  text : Option Text → ContentBlock
  tool_use : Option String → Option ToolInput → ContentBlock
  thinking unknown : ContentBlock

-- The variables of the loop.
pub record Preview : Type 0 where
  pub result : Text
  pub has_text : Bool
  pub has_thinking_only : Bool

abbrev pub push_part : Text → Text → Text
push_part result part = if is_empty result then result ++ part else (result ++ 32 ∷ []) ++ part

abbrev pub tool_name : Option String → String
tool_name none = "tool"
tool_name (some name) = name

unfoldable pub add_block : ContentBlock → Preview → Preview
unfolding generate_tool_use_preview
add_block (text none) p = record p { has_text = true; has_thinking_only = false }
add_block (text (some t)) p = record {
  result = push_part p.result t;
  has_text = true;
  has_thinking_only = false;
}
add_block (tool_use name input) p = record p {
  result = push_part p.result (generate_tool_use_preview (tool_name name) input);
  has_thinking_only = false;
}
add_block thinking p = p
add_block unknown p = record p { has_thinking_only = false }

abbrev pub add_blocks : List ContentBlock → Preview → Preview
add_blocks [] p = p
add_blocks (b ∷ bs) p = add_blocks bs (add_block b p)

-- "💭 思考中..." and "（空消息）".
abbrev pub thinking_text : Text
thinking_text = 0x1f4ad ∷ 32 ∷ 0x601d ∷ 0x8003 ∷ 0x4e2d ∷ dots

abbrev pub empty_text : Text
empty_text = 0xff08 ∷ 0x7a7a ∷ 0x6d88 ∷ 0x606f ∷ 0xff09 ∷ []

unfoldable pub generate_preview_from_content_blocks : List ContentBlock → Text
unfolding truncate_chars
generate_preview_from_content_blocks blocks =
    let p =
      add_blocks blocks (record { result = []; has_text = false; has_thinking_only = true }) in
    if p.has_thinking_only && (not p.has_text && is_empty p.result)
    then thinking_text
    else (if is_empty p.result then empty_text else truncate_chars p.result 100)

-- A text that is too long is cut to the limit and gets three more characters; any other is kept.
pub length-truncate_chars :
    (s : Text) (max_chars : ℕ)
    → length (truncate_chars s max_chars)
      ≡ (if ltb max_chars (length s) then max_chars + 3 else length s)
unfolding truncate_chars
length-truncate_chars s max_chars =
    ground (arith, length-take max_chars s, length-append (take max_chars s) dots)

pub truncate_chars_short : (s : Text) → length (truncate_chars s 100) ≤ 103
truncate_chars_short s = ground (arith, length-truncate_chars s 100)

-- A preview is a hundred characters and three dots at most.
pub length-generate_preview_from_content_blocks :
    (blocks : List ContentBlock) → length (generate_preview_from_content_blocks blocks) ≤ 103
unfolding generate_preview_from_content_blocks
length-generate_preview_from_content_blocks blocks =
    let p =
      add_blocks blocks (record { result = []; has_text = false; has_thinking_only = true }) in
    from (p.has_thinking_only && (not p.has_text && is_empty p.result)) (is_empty p.result)
      (truncate_chars p.result 100) (truncate_chars_short p.result)
  where
    from :
        (a b : Bool) (t : Text)
        → length t ≤ 103
        → length (if a then thinking_text else (if b then empty_text else t)) ≤ 103
    from true b t h = omega arith
    from false true t h = omega arith
    from false false t h = h

-- The preview of the session list is never longer than its limit, if that is at least 3.
pub length-truncate_preview :
    (s : Text) (max_chars : ℕ) → 3 ≤ max_chars → length (truncate_preview s max_chars) ≤ max_chars
unfolding truncate_preview
length-truncate_preview s max_chars h =
    let cut = length-take (max_chars - 3) (clean s) in
    let more = length-append (take (max_chars - 3) (clean s)) dots in ground (arith, h, cut, more)
