-- ===== src/Reader/Projects/Encoded.antt =====
-- src/reader.rs, get_encoded_dir_name: what the cache answers after it was filled.
use ai_cli_session_db.Prelude.{
  String, List, [], ◌∷◌, Option, none, some, retain, Has, str_eq, str_eq_iff, ◌≡◌, refl, sym, ap,
  ◌∙◌, ◌⊎◌, inl, inr, Bool-cases, arith, if◌then◌else◌,
}
use ai_cli_session_db.Sync.Cursors.{find, upsert, find-upsert}
use ai_cli_session_db.Reader.Sessions.{Cache}
use ai_cli_session_db.Reader.Projects.{
  ProjectDir, scan_project_dir, is_visible, remember_dirs, list_projects, get_encoded_dir_name,
}

-- A directory of the path among the given ones.
abbrev pub IsEncoded : List ProjectDir → String → String → Type 0
IsEncoded ds path encoded =
    (d : ProjectDir) × Has d ds × ((scan_project_dir d).0 ≡ path) × (encoded ≡ d.encoded_name)

abbrev pub EncodedAs : List ProjectDir → Cache → String → Option String → Type 0
EncodedAs ds cache path none =
    (find path cache ≡ none) × ((d : ProjectDir) → Has d ds → (scan_project_dir d).0 ≡ path → ⊥)
EncodedAs ds cache path (some encoded) =
    IsEncoded ds path encoded
    ⊎ ((find path cache ≡ some encoded)
        × ((d : ProjectDir) → Has d ds → (scan_project_dir d).0 ≡ path → ⊥))

remember_dirs-EncodedAs :
    (ds : List ProjectDir) (cache : Cache) (path : String)
    → EncodedAs ds cache path (find path (remember_dirs ds cache))
unfolding remember_dirs
remember_dirs-EncodedAs [] cache path = from (find path cache) refl
  where
    from : (o : Option String) → find path cache ≡ o → EncodedAs [] cache path o
    from none e = (e, λ d m. absurd m)
    from (some x) e = inr (e, λ d m. absurd m)
remember_dirs-EncodedAs (d ∷ ds) cache path =
    from (find path (remember_dirs (d ∷ ds) cache)) (
      remember_dirs-EncodedAs ds (upsert (scan_project_dir d).0 (λ old. d.encoded_name) cache) path)
  where
    written :
        find path (upsert (scan_project_dir d).0 (λ old. d.encoded_name) cache)
        ≡ (if str_eq (scan_project_dir d).0 path then some d.encoded_name else find path cache)
    written = find-upsert (scan_project_dir d).0 path (λ old. d.encoded_name) cache

    from :
        (o : Option String)
        → EncodedAs ds (upsert (scan_project_dir d).0 (λ old. d.encoded_name) cache) path o
        → EncodedAs (d ∷ ds) cache path o
    from none (e, k) = elim (Bool-cases (str_eq (scan_project_dir d).0 path)) [
      | inl f ↦ absurd (ground (arith, e, f, written))
      | inr f ↦ (
        ground (arith, e, f, written),
        λ c m q. elim m [
          | inl same ↦ cc (
            (str_eq_iff (scan_project_dir d).0 path).1
                (ap (λ (x : ProjectDir). (scan_project_dir x).0) (sym same) ∙ q),
            f,
          )
          | inr n ↦ k c n q
        ],
      )
    ]
    from (some x) (inl (c, m, q, r)) = inl (c, inr m, q, r)
    from (some x) (inr (e, k)) = elim (Bool-cases (str_eq (scan_project_dir d).0 path)) [
      | inl f ↦
          inl (
            d,
            inl refl,
            (str_eq_iff (scan_project_dir d).0 path).0 f,
            ground (arith, e, f, written),
          )
      | inr f ↦ inr (
        ground (arith, e, f, written),
        λ c m q. elim m [
          | inl same ↦ cc (
            (str_eq_iff (scan_project_dir d).0 path).1
                (ap (λ (y : ProjectDir). (scan_project_dir y).0) (sym same) ∙ q),
            f,
          )
          | inr n ↦ k c n q
        ],
      )
    ]

-- What the answer for a path says of the visible directories.
abbrev pub AnswersPath : List ProjectDir → String → Option String → Type 0
AnswersPath ds path none = (d : ProjectDir) → Has d ds → (scan_project_dir d).0 ≡ path → ⊥
AnswersPath ds path (some encoded) = IsEncoded ds path encoded

-- Where the cache has no name for a path yet, the answer is the encoded name of a visible directory
-- whose path it is, which the first `cwd` of its session files gives or else its own name, and none
-- exactly where there is no such directory; the cache has the same answer afterwards.
pub get_encoded_dir_name-AnswersPath :
    (name_of : String → String) (ds : List ProjectDir) (path : String) (cache : Cache)
    → find path cache ≡ none
    → let (answer, later) = get_encoded_dir_name name_of (some ds) path cache in
      AnswersPath (retain is_visible ds) path answer × (find path later ≡ answer)
unfolding get_encoded_dir_name list_projects
get_encoded_dir_name-AnswersPath name_of ds path cache e =
    rw (e, get_encoded_dir_name, list_projects)
      (
        from (find path (remember_dirs visible cache)) (remember_dirs-EncodedAs visible cache path),
        refl,
      )
  where
    visible : List ProjectDir
    visible = retain is_visible ds

    from : (o : Option String) → EncodedAs visible cache path o → AnswersPath visible path o
    from none (f, k) = k
    from (some x) (inl h) = h
    from (some x) (inr (f, k)) = cc (e, f)
