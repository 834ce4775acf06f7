-- ===== src/Reader/Metrics.antt =====
-- src/reader.rs, calculate_metrics: the metrics of a session. What the adapter parses is a parameter.
use ai_cli_session_db.Prelude.{
  ℕ, ◌+◌, ◌-◌, ◌/◌, Text, List, [], ◌∷◌, Option, none, some, Bool, true, false, retain, length, ltb,
  if◌then◌else◌,
}
use ai_cli_session_db.Db.{MessageType, user, assistant, tool, system}

-- A parsed message as the metrics read it; `created_at` and `updated_at` are the nanoseconds that
-- they read as, if they read as times.
pub record MetricMessage : Type 0 where
  pub message_type : MessageType
  pub full : Text

pub record SessionMetrics : Type 0 where
  pub message_count : ℕ
  pub user_message_count : ℕ
  pub assistant_message_count : ℕ
  pub estimated_tokens : ℕ
  pub duration_seconds : Option ℕ

-- `str::len`: the bytes in UTF-8.
abbrev pub utf8_len : Text → ℕ
utf8_len [] = 0
utf8_len (c ∷ cs) =
    (if ltb c 128 then 1 else if ltb c 2048 then 2 else if ltb c 65536 then 3 else 4) + utf8_len cs

abbrev pub total_chars : List MetricMessage → ℕ
total_chars [] = 0
total_chars (m ∷ ms) = utf8_len m.full + total_chars ms

abbrev pub is_user_message : MetricMessage → Bool
is_user_message m = elim m.message_type [
  | user ↦ true
  | assistant ↦ false
  | tool ↦ false
  | system ↦ false
]

abbrev pub is_assistant_message : MetricMessage → Bool
is_assistant_message m = elim m.message_type [
  | user ↦ false
  | assistant ↦ true
  | tool ↦ false
  | system ↦ false
]

unfoldable pub calculate_metrics :
    Option (List MetricMessage × Option ℕ × Option ℕ) → Option SessionMetrics
calculate_metrics none = none
calculate_metrics (some (ms, created_at, updated_at)) = some (record {
  message_count = length ms;
  user_message_count = length (retain is_user_message ms);
  assistant_message_count = length (retain is_assistant_message ms);
  estimated_tokens = total_chars ms / 4;
  duration_seconds = elim created_at [
    | none ↦ none
    | some first ↦ elim updated_at [ none ↦ none | some last ↦ some ((last - first) / 1000000000) ]
  ];
})
