-- ===== src/Sync/Filter.antt =====
-- src/sync/filter.rs: the allow list of projects and the sensitive words, applied before a push.
-- The compiled glob sets (globset) and the word automaton (aho_corasick) are third-party code: a
-- glob set is its match function, the automaton is its two queries, and both builders are arguments.
pub mod Projects
pub mod Words
use mathlib.Core.Option
use ai_cli_session_db.Prelude.{
  ℕ, String, Text, List, [], ◌∷◌, Option, none, some, Bool, true, false, not, ◌&&◌, ◌||◌, map,
  retain, is_empty, length, replicate, codes, contains, if◌then◌else◌, is_some_and,
}
use ai_cli_session_db.Prelude.Lines.{lines, trim, starts_with_char}
use ai_cli_session_db.Sync.Batch.{SyncBatch, SyncMessage, SyncTalk}

-- A compiled `globset::GlobSet` is the paths that it matches.
abbrev pub GlobSet : Type 0
GlobSet = String → Bool

pub record ProjectFilter : Type 0 where
  pub include : Option GlobSet
  pub exclude : Option GlobSet

-- No patterns mean no restriction, which differs from a set that matches nothing.
abbrev build_glob_set : (List String → Option GlobSet) → List String → Option (Option GlobSet)
build_glob_set build patterns =
    if is_empty patterns then some none else Option.map some (build patterns)

-- `ProjectFilter::new`; `none` is the error of a pattern that does not compile.
unfoldable pub project_filter :
    (List String → Option GlobSet) → List String → List String → Option ProjectFilter
project_filter build include exclude = elim (build_glob_set build include) [
  | none ↦ none
  | some inc ↦ elim (build_glob_set build exclude) [
    | none ↦ none
    | some exc ↦ some (record { include = inc; exclude = exc })
  ]
]

unfoldable pub is_allowed : ProjectFilter → String → Bool
is_allowed f path =
    if is_some_and f.exclude (λ exclude. exclude path)
    then false
    else elim f.include [ some include ↦ include path | none ↦ true ]

-- `allowed_paths`: the paths of the batch's own projects that pass.
unfoldable pub allowed_paths : ProjectFilter → SyncBatch → List String
allowed_paths f batch = map (λ p. p.path) (retain (λ p. is_allowed f p.path) batch.projects)

unfoldable pub allowed_sessions : ProjectFilter → SyncBatch → List String
allowed_sessions f batch =
    map (λ s. s.session_id)
      (retain (λ s. contains (allowed_paths f batch) s.project_path) batch.sessions)

-- `ProjectFilter::filter_batch`.
unfoldable pub filter_projects : ProjectFilter → SyncBatch → SyncBatch
filter_projects f batch =
    let paths = allowed_paths f batch in
    let ids = allowed_sessions f batch in
    record {
      projects = retain (λ p. contains paths p.path) batch.projects;
      sessions = retain (λ s. contains paths s.project_path) batch.sessions;
      messages = retain (λ m. contains ids m.session_id) batch.messages;
      session_relations =
          retain (λ r. contains ids r.parent_session_id || contains ids r.child_session_id)
            batch.session_relations;
      continuation_chains = retain (λ c. contains ids c.root_session_id) batch.continuation_chains;
      chain_nodes = retain (λ n. contains ids n.session_id) batch.chain_nodes;
      talks = retain (λ t. contains ids t.session_id) batch.talks;
    }

pub data FilterMode : Type 0 where
  redact_mode block_mode tag_mode : FilterMode

-- An Aho-Corasick automaton: does a word occur, and the text with its words replaced.
pub record Automaton : Type 0 where
  pub is_match : Text → Bool
  pub replace_all : Text → List Text → Text

pub record SensitiveWordFilter : Type 0 where
  pub automaton : Automaton
  pub mode : FilterMode
  pub patterns_count : ℕ

-- The words of a file: its trimmed lines, without the empty ones and the comments.
unfoldable pub patterns_of : Text → List Text
patterns_of content =
    retain (λ line. not (is_empty line) && not (starts_with_char b'#' line))
      (map trim (lines content))

-- `SensitiveWordFilter::from_str`; the builder fails on too large an automaton.
unfoldable pub word_filter :
    (List Text → Option Automaton) → Text → FilterMode → Option SensitiveWordFilter
word_filter build content mode =
    let patterns = patterns_of content in
    Option.map
      (λ automaton. record { automaton = automaton; mode = mode; patterns_count = length patterns })
      (build patterns)

unfoldable pub contains_sensitive : SensitiveWordFilter → Text → Bool
contains_sensitive w text = w.automaton.is_match text

unfoldable pub redact : SensitiveWordFilter → Text → Text
redact w text = w.automaton.replace_all text (replicate w.patterns_count (codes "***"))

redact_message : SensitiveWordFilter → SyncMessage → SyncMessage
redact_message w msg = record msg {
  content_text = redact w msg.content_text;
  content_full = redact w msg.content_full;
  raw = Option.map (redact w) msg.raw;
  tool_args = Option.map (redact w) msg.tool_args;
}

redact_talk : SensitiveWordFilter → SyncTalk → SyncTalk
redact_talk w talk = record talk {
  summary_l2 = redact w talk.summary_l2;
  summary_l3 = Option.map (redact w) talk.summary_l3;
}

unfoldable pub redact_batch : SensitiveWordFilter → SyncBatch → SyncBatch
unfolding redact_message redact_talk
redact_batch w batch = record batch {
  messages = map (redact_message w) batch.messages;
  talks = map (redact_talk w) batch.talks;
}

unfoldable pub is_message_sensitive : SensitiveWordFilter → SyncMessage → Bool
is_message_sensitive w msg =
    contains_sensitive w msg.content_text
    || contains_sensitive w msg.content_full
    || is_some_and msg.raw (contains_sensitive w)
    || is_some_and msg.tool_args (contains_sensitive w)

unfoldable pub block_batch : SensitiveWordFilter → SyncBatch → SyncBatch
block_batch w batch = record batch {
  messages = retain (λ m. not (is_message_sensitive w m)) batch.messages;
  talks =
      retain
        (λ t.
          not (contains_sensitive w t.summary_l2)
          && not (is_some_and t.summary_l3 (contains_sensitive w)))
        batch.talks;
}

-- `SensitiveWordFilter::filter_batch`; a tag is set by the server.
unfoldable pub filter_words : SensitiveWordFilter → SyncBatch → SyncBatch
filter_words w batch = elim w.mode [
  | redact_mode ↦ redact_batch w batch
  | block_mode ↦ block_batch w batch
  | tag_mode ↦ batch
]
