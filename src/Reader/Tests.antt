-- ===== src/Reader/Tests.antt =====
-- The theorems of Reader at a session of three messages, which are numbers here.
use mathlib.Core.Option
use ai_cli_session_db.Prelude.{
  ℕ, ◌-◌, ◌^◌, min, List, [], ◌∷◌, ◌++◌, Option, none, some, String, codes, retain, refl, not, ◌≡◌,
  length, take, is_empty, arith,
}
use ai_cli_session_db.Reader.Pages.{
  asc, desc, MessagesResult, panicked, page, in_order, read_messages, read_messages-page,
  read_messages-overflow,
}
use ai_cli_session_db.Sync.Cursors.{find}
use ai_cli_session_db.Reader.Sessions.{SessionInfo, find_latest_session}
use ai_cli_session_db.Reader.Sessions.Latest.{IsLatest, find_latest_session-IsLatest}
use ai_cli_session_db.Prelude.{Has, inl, true}
use ai_cli_session_db.Db.{user, assistant}
use ai_cli_session_db.Reader.Preview.{
  tool_use, generate_preview_from_content_blocks, add_block, generate_tool_use_preview,
  truncate_chars,
}
use ai_cli_session_db.Reader.Sessions.{list_sessions}
use ai_cli_session_db.Reader.Shown.{
  ParsedMessage, generate_preview, with_preview, list_sessions_with_preview, Shows,
  list_sessions_with_preview-Shows,
}
use ai_cli_session_db.Reader.Projects.{readable, ProjectDir, is_visible, get_encoded_dir_name}
use ai_cli_session_db.Reader.Projects.Encoded.{AnswersPath, get_encoded_dir_name-AnswersPath}

abbrev three : List ℕ
three = 1 ∷ 2 ∷ 3 ∷ []

read_messages-page_example :
    (r : MessagesResult ℕ) × (rest : List ℕ) × (read_messages (some three) 1 1 desc ≡ page r)
    × (take 1 (in_order desc three) ++ (r.messages ++ rest) ≡ in_order desc three)
    × (length r.messages ≡ min 1 (length three - 1))
    × (r.total ≡ length three)
    × (r.has_more ≡ not (is_empty rest))
read_messages-page_example = read_messages-page three 1 1 desc (omega arith)

read_messages-overflow_example : read_messages (some three) (2 ^ 64 - 1) 1 asc ≡ panicked
read_messages-overflow_example =
    read_messages-overflow three (2 ^ 64 - 1) 1 asc (omega arith) (omega arith) (omega arith)
      (omega arith)

abbrev info : String → String → Option ℕ → SessionInfo
info id path mtime = record {
  id = id;
  project_path = path;
  encoded_dir_name = none;
  session_path = none;
  file_mtime = mtime;
  last_message_type = none;
  last_message_preview = none;
  last_message_at = none;
}

abbrev listed : List SessionInfo
listed =
    info "s1" "/p" (some 5000)
    ∷ info "agent-1" "/p" (some 9000)
    ∷ info "s2" "/p" (some 7000)
    ∷ info "s3" "/q" (some 8000)
    ∷ []

find_latest_session-IsLatest_example :
    IsLatest "/p" (some 1) 7500 listed (find_latest_session (some listed) "/p" (some 1) 7500 []).0
find_latest_session-IsLatest_example = find_latest_session-IsLatest listed "/p" (some 1) 7500 []

-- A hidden directory, one without a path of its own, and one whose file names its path.
abbrev directories : List ProjectDir
directories =
    record { encoded_name = ".git"; files = none }
    ∷ record { encoded_name = "-p"; files = some [] }
    ∷ record {
      encoded_name = "-q";
      files = some (
          record {
            name = codes "s1.jsonl";
            mtime = some 5;
            lines = some (readable none ∷ readable (some "/q") ∷ []);
          }
          ∷ []);
    }
    ∷ []

get_encoded_dir_name-AnswersPath_example :
    let (answer, later) = get_encoded_dir_name (λ path. path) (some directories) "/q" [] in
    AnswersPath (retain is_visible directories) "/q" answer × (find "/q" later ≡ answer)
unfolding find
get_encoded_dir_name-AnswersPath_example =
    get_encoded_dir_name-AnswersPath (λ path. path) directories "/q" [] refl

-- A session whose file has a question and an answer with a tool call.
abbrev asked : ParsedMessage
asked = record { message_type = user; text = codes "why?"; raw = none; timestamp = some 1 }

abbrev answered : ParsedMessage
answered = record {
  message_type = assistant;
  text = [];
  raw = some (
      some (
        tool_use (some "Read") (
          some
            (record { command = none; file_path = some (codes "/src/db.rs"); pattern_text = none }))
        ∷ []));
  timestamp = some 2;
}

abbrev parse_one : String → Option (List ParsedMessage)
parse_one path = some (asked ∷ answered ∷ [])

abbrev with_path : SessionInfo
with_path = record (info "s4" "/p" (some 1)) { session_path = some "/s4.jsonl" }

shown-answered : generate_preview answered ≡ 0x1f527 ∷ 32 ∷ codes "Read: db.rs"
unfolding generate_preview generate_preview_from_content_blocks add_block generate_tool_use_preview
    truncate_chars Option.bind
shown-answered = refl

list_sessions_with_preview-Shows_example :
    (o : SessionInfo) × Has o (list_sessions (some (with_path ∷ [])) none true []).0
    × ((with_preview parse_one with_path).id ≡ o.id)
    × ((path : String) (ms : List ParsedMessage) (m : ParsedMessage)
        → o.session_path ≡ some path
        → parse_one path ≡ some (ms ++ m ∷ [])
        → Shows m (with_preview parse_one with_path))
unfolding list_sessions_with_preview list_sessions
list_sessions_with_preview-Shows_example =
    list_sessions_with_preview-Shows parse_one (some (with_path ∷ [])) none true []
      (with_preview parse_one with_path) (inl refl)
