-- ===== src/Reader/Projects.antt =====
-- src/reader.rs, the list of project directories and the cache of their encoded names. The file system
-- is a list of directories with their files.
pub mod Encoded
use ai_cli_session_db.Prelude.{
  ℕ, zero, suc, ◌+◌, ◌-◌, ◌/◌, max, String, Text, List, [], ◌∷◌, ◌++◌, Option, none, some, Bool,
  true, false, not, ◌&&◌, map, retain, reverse, take, drop, length, is_empty, codes, str_eq, ltb,
  if◌then◌else◌,
}
use ai_cli_session_db.Sync.Cursors.{find, upsert}
use ai_cli_session_db.Reader.Sessions.{Cache, begins, sort_newest}

-- A line of a session file: one that cannot be read, or one with its `cwd`, if it is JSON with a string
-- there, which a blank line is not.
pub data CwdLine : Type 0 where
  unreadable : CwdLine
  readable : Option String → CwdLine

-- A file of a project directory; `lines` is none where it cannot be opened.
pub record DirFile : Type 0 where
  pub name : Text
  pub mtime : Option ℕ
  pub lines : Option (List CwdLine)

-- A directory; `none` is that it cannot be read.
pub record ProjectDir : Type 0 where
  pub encoded_name : String
  pub files : Option (List DirFile)

pub record ProjectInfo : Type 0 where
  pub encoded_name : String
  pub path : String
  pub name : String
  pub session_count : ℕ
  pub last_active : Option ℕ

abbrev pub jsonl : Text
jsonl = codes ".jsonl"

-- `trim_end_matches` on reversed texts; a text is no longer than its own length.
abbrev pub trim_matches : ℕ → Text → Text → Text
trim_matches zero p t = t
trim_matches (suc n) p t =
    let rest = trim_matches n p (drop (length p) t) in if begins p t then rest else t

abbrev pub session_id_of : Text → Text
session_id_of name = reverse (trim_matches (length name) (reverse jsonl) (reverse name))

-- A `.jsonl` file of a session that is no agent's.
abbrev pub is_session_file : DirFile → Bool
is_session_file f =
    begins (reverse jsonl) (reverse f.name)
    && not (is_empty (session_id_of f.name))
    && not (begins (codes "agent-") (session_id_of f.name))

-- The variables of scan_project_dir.
pub record DirScan : Type 0 where
  pub session_count : ℕ
  pub last_active : Option ℕ
  pub decoded_path : Option String

abbrev pub later_of : Option ℕ → Option ℕ → Option ℕ
later_of last none = last
later_of none (some t) = some t
later_of (some l) (some t) = some (max l t)

abbrev pub first_of : Option String → Option String → Option String
first_of none cwd = cwd
first_of (some path) cwd = some path

abbrev pub cwd_of : List CwdLine → Option String
cwd_of [] = none
cwd_of (unreadable ∷ ls) = none
cwd_of (readable none ∷ ls) = cwd_of ls
cwd_of (readable (some cwd) ∷ ls) = some cwd

abbrev pub read_cwd_from_jsonl : DirFile → Option String
read_cwd_from_jsonl f = elim f.lines [ none ↦ none | some ls ↦ cwd_of (take 10 ls) ]

abbrev pub scan_file : DirFile → DirScan → DirScan
scan_file f s =
    if is_session_file f
    then record {
      session_count = suc s.session_count;
      last_active = later_of s.last_active f.mtime;
      decoded_path = first_of s.decoded_path (read_cwd_from_jsonl f);
    }
    else s

abbrev pub scan_files : List DirFile → DirScan → DirScan
scan_files [] s = s
scan_files (f ∷ fs) s = scan_files fs (scan_file f s)

abbrev pub no_files : DirScan
no_files = record { session_count = 0; last_active = none; decoded_path = none }

abbrev pub path_or : Option String → String → String
path_or none encoded = encoded
path_or (some path) encoded = path

-- The path, the number of sessions and the last activity.
unfoldable pub scan_project_dir : ProjectDir → String × ℕ × Option ℕ
scan_project_dir d = elim d.files [
  | none ↦ (d.encoded_name, 0, none)
  | some fs ↦
      let s = scan_files fs no_files in
      (path_or s.decoded_path d.encoded_name, s.session_count, s.last_active)
]

-- A name that is not empty and not hidden.
abbrev pub is_visible : ProjectDir → Bool
is_visible d = not (str_eq d.encoded_name "") && not (begins (codes ".") (codes d.encoded_name))

-- `name_of` is `ClaudeAdapter::extract_project_name`.
abbrev pub project_info : (String → String) → ProjectDir → ProjectInfo
project_info name_of d =
    let (path, count, last) = scan_project_dir d in
    record {
      encoded_name = d.encoded_name;
      path = path;
      name = name_of path;
      session_count = count;
      last_active = last;
    }

unfoldable pub remember_dirs : List ProjectDir → Cache → Cache
remember_dirs [] cache = cache
remember_dirs (d ∷ ds) cache =
    remember_dirs ds (upsert (scan_project_dir d).0 (λ old. d.encoded_name) cache)

abbrev pub last_activity : ProjectInfo → ℕ
last_activity p = elim p.last_active [ none ↦ 0 | some t ↦ suc t ]

-- `none` is that the directory of projects is missing or cannot be read.
unfoldable pub list_projects :
    (String → String) → Option (List ProjectDir) → Option ℕ → Cache → List ProjectInfo × Cache
unfolding scan_project_dir
list_projects name_of dirs limit cache = elim dirs [
  | none ↦ ([], cache)
  | some ds ↦
      let visible = retain is_visible ds in
      let results = sort_newest last_activity (map (project_info name_of) visible) in
      (elim limit [ none ↦ results | some n ↦ take n results ], remember_dirs visible cache)
]

unfoldable pub get_encoded_dir_name :
    (String → String) → Option (List ProjectDir) → String → Cache → Option String × Cache
get_encoded_dir_name name_of dirs project_path cache = elim (find project_path cache) [
  | some encoded ↦ (some encoded, cache)
  | none ↦ let later = (list_projects name_of dirs none cache).1 in (find project_path later, later)
]

-- The directory and the name of the file of a session; `is_file` is the test of the file system.
abbrev pub search_dirs : (String → Text → Bool) → Text → List ProjectDir → Option (String × Text)
search_dirs is_file target [] = none
search_dirs is_file target (d ∷ ds) =
    let rest = search_dirs is_file target ds in
    if not (begins (codes ".") (codes d.encoded_name)) && is_file d.encoded_name target
    then some (d.encoded_name, target)
    else rest

unfoldable pub get_session_path :
    (String → Text → Bool) → Option (List ProjectDir) → Text → Option (String × Text)
get_session_path is_file dirs session_id = elim dirs [
  | none ↦ none
  | some ds ↦ search_dirs is_file (session_id ++ jsonl) ds
]
