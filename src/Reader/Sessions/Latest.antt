-- ===== src/Reader/Sessions/Latest.antt =====
-- src/reader.rs, find_latest_session: what the latest session is.
use ai_cli_session_db.Prelude.{
  ℕ, ◌-◌, ◌*◌, ◌%◌, ◌^◌, ◌≤◌, ◌<◌, String, List, [], ◌∷◌, Option, none, some, true, false, retain,
  Has, Has-retain, Has-retain_of, str_eq_iff, leb, ◌≡◌, refl, sym, ap, subst, ◌∙◌, inl, inr,
  Bool-cases, Option-cases, arith, if◌then◌else◌, leb→le,
}
use ai_cli_session_db.Db.Listing.{first}
use ai_cli_session_db.Reader.Sessions.{
  SessionInfo, Cache, is_agent_id, stamp, insert_newest, sort_newest, is_wanted, list_sessions,
  is_stale, find_latest_session,
}

-- The first of the sessions with the highest stamp.
newest_of : List SessionInfo → Option SessionInfo
newest_of [] = none
newest_of (x ∷ xs) = elim (newest_of xs) [
  | none ↦ some x
  | some h ↦ if leb (stamp h) (stamp x) then some x else some h
]

first-insert_newest :
    (x : SessionInfo) (ys : List SessionInfo)
    → first (insert_newest stamp x ys) ≡ elim (first ys) [
      | none ↦ some x
      | some h ↦ if leb (stamp h) (stamp x) then some x else some h
    ]
first-insert_newest x [] = refl
first-insert_newest x (y ∷ ys) = elim (Bool-cases (leb (stamp y) (stamp x))) [
  | inl e ↦ rw e refl
  | inr e ↦ rw e refl
]

first-sort_newest : (xs : List SessionInfo) → first (sort_newest stamp xs) ≡ newest_of xs
unfolding newest_of
first-sort_newest [] = refl
first-sort_newest (x ∷ xs) =
    first-insert_newest x (sort_newest stamp xs)
    ∙ ap
        (λ (o : Option SessionInfo). elim o [
          | none ↦ some x
          | some h ↦ if leb (stamp h) (stamp x) then some x else some h
        ])
        (first-sort_newest xs)

-- It is a member, and no member is newer.
IsNewest : List SessionInfo → Option SessionInfo → Type 0
IsNewest xs none = (o : SessionInfo) → Has o xs → ⊥
IsNewest xs (some s) = Has s xs × ((o : SessionInfo) → Has o xs → stamp o ≤ stamp s)

newest_of-IsNewest : (xs : List SessionInfo) → IsNewest xs (newest_of xs)
unfolding newest_of IsNewest
newest_of-IsNewest [] = λ o m. m
newest_of-IsNewest (x ∷ xs) = from (newest_of xs) (newest_of-IsNewest xs)
  where
    from :
        (o : Option SessionInfo)
        → IsNewest xs o
        → IsNewest
            (x ∷ xs)
            (elim o [ none ↦ some x | some h ↦ if leb (stamp h) (stamp x) then some x else some h ])
    from none k =
        (inl refl, λ o m. elim m [ inl e ↦ omega (arith, ap stamp e) | inr n ↦ absurd (k o n) ])
    from (some h) (m, k) = elim (Bool-cases (leb (stamp h) (stamp x))) [
      | inl e ↦ rw e (
        inl refl,
        λ o n. elim n [
          | inl q ↦ omega (arith, ap stamp q)
          | inr q ↦ omega (arith, k o q, leb→le (stamp h) (stamp x) e)
        ],
      )
      | inr e ↦
          rw e (inr m, λ o n. elim n [ inl q ↦ ground (arith, ap stamp q, e) | inr q ↦ k o q ])
    ]

-- A session of the project that is no agent's.
pub record IsOwn (path : String) (ss : List SessionInfo) (s : SessionInfo) : Type 0 where
  pub listed : Has s ss
  pub project : s.project_path ≡ path
  pub own : is_agent_id s.id ≡ false

IsOwn-retain :
    (path : String) (ss : List SessionInfo) (s : SessionInfo)
    → Has s (retain (is_wanted (some path) false) ss)
    → IsOwn path ss s
IsOwn-retain path ss s m =
    let (h, e) = Has-retain (is_wanted (some path) false) s ss m in
    record {
      listed = h;
      project = (str_eq_iff s.project_path path).0 (ground (arith, e));
      own = ground (arith, e);
    }

wanted_of_own :
    (path : String) (ss : List SessionInfo) (s : SessionInfo)
    → IsOwn path ss s
    → Has s (retain (is_wanted (some path) false) ss)
wanted_of_own path ss s o =
    Has-retain_of (is_wanted (some path) false) s ss o.listed
      (rw (o.own, (str_eq_iff s.project_path path).1 o.project) refl)

-- The answer is the newest of the sessions, unless it is stale; without an answer every one that has
-- an mtime is.
abbrev pub IsLatest : String → Option ℕ → ℕ → List SessionInfo → Option SessionInfo → Type 0
IsLatest path within now ss (some s) =
    IsOwn path ss s
    × ((o : SessionInfo) → IsOwn path ss o → stamp o ≤ stamp s)
    × (is_stale within now s ≡ false)
IsLatest path within now ss none =
    (o : SessionInfo) (t : ℕ)
    → IsOwn path ss o
    → o.file_mtime ≡ some t
    → (w : ℕ) × (within ≡ some w) × ((w * 1000) % 2 ^ 64 < now - t)

stale_all :
    (within : Option ℕ) (now t : ℕ) (s o : SessionInfo)
    → is_stale within now s ≡ true
    → stamp o ≤ stamp s
    → o.file_mtime ≡ some t
    → (w : ℕ) × (within ≡ some w) × ((w * 1000) % 2 ^ 64 < now - t)
stale_all none now t s o e le m = cc
stale_all (some w) now t s o e le m = elim (Option-cases s.file_mtime) [
  | inl f ↦ absurd (ground (arith, f, e))
  | inr (u, f) ↦ (w, refl, ground (arith, f, e, le, m))
]

-- The latest session of a project is the one with the highest mtime of its sessions that are no
-- agent's, one without an mtime being below every other. With a limit on its age it is none exactly
-- where that one is older; all that have an mtime are older then.
pub find_latest_session-IsLatest :
    (ss : List SessionInfo) (path : String) (within : Option ℕ) (now : ℕ) (cache : Cache)
    → IsLatest path within now ss (find_latest_session (some ss) path within now cache).0
unfolding find_latest_session list_sessions IsNewest
find_latest_session-IsLatest ss path within now cache =
    let wanted = retain (is_wanted (some path) false) ss in
    subst
      (λ o.
        IsLatest path within now ss
          (elim o [ none ↦ none | some s ↦ if is_stale within now s then none else some s ]))
      (sym (first-sort_newest wanted)) (from (newest_of wanted) (newest_of-IsNewest wanted))
  where
    from :
        (o : Option SessionInfo)
        → IsNewest (retain (is_wanted (some path) false) ss) o
        → IsLatest path within now ss
            (elim o [ none ↦ none | some s ↦ if is_stale within now s then none else some s ])
    from none k = λ o t own m. absurd (k o (wanted_of_own path ss o own))
    from (some s) (h, k) = elim (Bool-cases (is_stale within now s)) [
      | inl e ↦ rw e λ o t own m. stale_all within now t s o e (k o (wanted_of_own path ss o own)) m
      | inr e ↦ rw e (IsOwn-retain path ss s h, λ o own. k o (wanted_of_own path ss o own), e)
    ]
