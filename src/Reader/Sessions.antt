-- ===== src/Reader/Sessions.antt =====
-- src/reader.rs, the lists of sessions and the latest session of a project, with the cache of encoded
-- directory names. What the adapter lists is a parameter.
pub mod Latest
use ai_cli_session_db.Prelude.{
  ℕ, suc, ◌-◌, ◌*◌, ◌%◌, ◌^◌, String, Text, List, [], ◌∷◌, Option, none, some, Bool, true, false,
  not, ◌&&◌, map, retain, codes, str_eq, ltb, leb, ◌==◌, if◌then◌else◌,
}
use ai_cli_session_db.Db.Listing.{first}
use ai_cli_session_db.Sync.Cursors.{find, upsert}

pub record SessionInfo : Type 0 where
  pub id : String
  pub project_path : String
  pub encoded_dir_name : Option String
  pub session_path : Option String
  pub file_mtime : Option ℕ
  pub last_message_type : Option String
  pub last_message_preview : Option Text
  pub last_message_at : Option ℕ

-- `encoded_dir_cache`.
abbrev pub Cache : Type 0
Cache = List (String × String)

-- `str::starts_with`.
abbrev pub begins : Text → Text → Bool
begins [] t = true
begins (p ∷ ps) [] = false
begins (p ∷ ps) (c ∷ cs) = (p == c) && begins ps cs

abbrev pub is_agent_id : String → Bool
is_agent_id id = begins (codes "agent-") (codes id)

unfoldable pub remember : List SessionInfo → Cache → Cache
remember [] cache = cache
remember (s ∷ ss) cache = elim s.encoded_dir_name [
  | none ↦ remember ss cache
  | some encoded ↦ remember ss (upsert s.project_path (λ old. encoded) cache)
]

-- The order of `Option<u64>`: no mtime is below every other.
abbrev pub stamp : SessionInfo → ℕ
stamp s = elim s.file_mtime [ none ↦ 0 | some t ↦ suc t ]

-- A stable `sort_by(|a, b| b.cmp(&a))` by a key.
abbrev pub insert_newest : {A : Type 0} → (A → ℕ) → A → List A → List A
insert_newest key a [] = a ∷ []
insert_newest key a (x ∷ xs) =
    let rest = x ∷ insert_newest key a xs in if leb (key x) (key a) then a ∷ x ∷ xs else rest

abbrev pub sort_newest : {A : Type 0} → (A → ℕ) → List A → List A
sort_newest key [] = []
sort_newest key (x ∷ xs) = insert_newest key x (sort_newest key xs)

abbrev pub is_wanted : Option String → Bool → SessionInfo → Bool
is_wanted project_path include_agents s =
    (if include_agents then true else not (is_agent_id s.id))
    && (elim project_path [ none ↦ true | some path ↦ str_eq s.project_path path ])

-- `none` is a list that the adapter fails to make.
unfoldable pub list_sessions :
    Option (List SessionInfo) → Option String → Bool → Cache → List SessionInfo × Cache
list_sessions listed project_path include_agents cache = elim listed [
  | none ↦ ([], cache)
  | some ss ↦
      (sort_newest stamp (retain (is_wanted project_path include_agents) ss), remember ss cache)
]

-- The product of two `u64` wraps, as in a release build; a debug build panics instead.
abbrev pub is_stale : Option ℕ → ℕ → SessionInfo → Bool
is_stale none now s = false
is_stale (some within) now s = elim s.file_mtime [
  | none ↦ false
  | some t ↦ ltb ((within * 1000) % 2 ^ 64) (now - t)
]

unfoldable pub find_latest_session :
    Option (List SessionInfo) → String → Option ℕ → ℕ → Cache → Option SessionInfo × Cache
find_latest_session listed project_path within now cache =
    let (ss, later) = list_sessions listed (some project_path) false cache in
    (
      elim (first ss) [ none ↦ none | some s ↦ if is_stale within now s then none else some s ],
      later,
    )
