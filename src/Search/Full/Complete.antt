-- ===== src/Search/Full/Complete.antt =====
-- src/search.rs: what a search returns.
use ai_cli_session_db.Prelude.{
  ℕ, ◌-◌, ◌≤◌, ◌<◌, Text, List, [], ◌∷◌, ◌++◌, Option, none, some, true, ◌&&◌, ◌≡◌, refl, sym, ap,
  ◌∙◌, ◌⊎◌, inl, inr, map, retain, take, length, min, Has, Has-map, Has-map_of, Has-take,
  Has-retain, Has-retain_of, Has-append, Has-append_left, Has-append_right, length-append,
  length-map, length-take, length-reverse, take_all, leb, leb→le, ◌==◌, ==_iff, Bool-cases,
  Option-cases, arith, any-Has,
}
use ai_cli_session_db.Prelude.Sorting.{sort_by, length-sort_by}
use ai_cli_session_db.Db.{SessionDb}
use ai_cli_session_db.Db.Listing.Prefix.{IsPlain}
use ai_cli_session_db.Search.Fts.{escape_fts5_query}
use ai_cli_session_db.Search.Full.Scope.{has_text, like-has_text}
use ai_cli_session_db.Search.Full.{
  SearchOrderBy, score, time_desc, time_asc, SearchResult, Match, SearchOptions, Row, in_scope,
  result_of, join_messages, join_matches, order_results, Fts, search_fts_internal, order_rows,
  is_listed, wanted, search_like_fallback, search_fts_full_with_sessions,
}
use ai_cli_session_db.Search.Full.Rows.{
  IsJoined, IsInScope, in_scope-IsInScope, IsInScope-in_scope, join_messages-IsJoined,
  IsJoined-join_messages, Has-order_results, Has-order_rows, Has-order_rows_of, time,
}

-- Why a result is there: a row of the index that matches, or the text of the message.
abbrev pub IsFound : Text → List Match → Row → Type 0
IsFound query matches r =
    ((m : Match) × Has m matches × (m.rowid ≡ r.message.id))
    ⊎ (has_text query r.message.content_full ≡ true)

-- What a result is.
abbrev pub IsHit : SessionDb → SearchOptions → (Row → Type 0) → SearchResult → Type 0
IsHit db opts Found x =
    (r : Row) × IsJoined db r × IsInScope opts r × Found r × (x.message_id ≡ r.message.id)

Has-join_matches :
    (db : SessionDb) (opts : SearchOptions) (xs : List Match) (x : SearchResult)
    → Has x (join_matches opts (join_messages db db.messages) xs)
    → IsHit db opts (λ r. (m : Match) × Has m xs × (m.rowid ≡ r.message.id)) x
unfolding join_matches
Has-join_matches db opts [] x h = absurd h
Has-join_matches db opts (m ∷ ms) x h =
    let rows = join_messages db db.messages in
    let mine = λ (r : Row). (r.message.id == m.rowid) && in_scope opts r in
    elim (Has-append x (map (result_of m.snippet m.score) (retain mine rows))
      (join_matches opts rows ms) h) [
        | inl k ↦
            let (r, kept, e) = Has-map (result_of m.snippet m.score) x (retain mine rows) k in
            let (row, f) = Has-retain mine r rows kept in
            (
              r,
              join_messages-IsJoined db r row,
              in_scope-IsInScope opts r (ground (arith, f)),
              (m, inl refl, sym ((==_iff r.message.id m.rowid).0 (ground (arith, f)))),
              ap (λ (y : SearchResult). y.message_id) e,
            )
        | inr k ↦
            let (r, row, scope, (n, listed, same), e) = Has-join_matches db opts ms x k in
            (r, row, scope, (n, inr listed, same), e)
      ]

Has-like_fallback :
    (query : Text) (n : ℕ) (opts : SearchOptions) (ids : List ℕ) (db : SessionDb) (x : SearchResult)
    → IsPlain query
    → Has x (search_like_fallback query n opts ids db)
    → IsHit db opts (λ r. has_text query r.message.content_full ≡ true) x
unfolding search_like_fallback
Has-like_fallback query n opts ids db x plain h =
    let rows = retain (wanted query opts ids) (join_messages db db.messages) in
    let (r, k, e) =
      Has-map (λ r. result_of (take 200 r.message.content_full) 0 r) x
        (take n (order_rows opts.order_by rows)) h in
    let (row, f) =
      Has-retain (wanted query opts ids) r (join_messages db db.messages)
        (Has-order_rows opts.order_by r rows (Has-take n r (order_rows opts.order_by rows) k)) in
    (
      r,
      join_messages-IsJoined db r row,
      in_scope-IsInScope opts r (ground (arith, f)),
      sym (like-has_text query r.message.content_full plain) ∙ ground (arith, f),
      ap (λ (y : SearchResult). y.message_id) e,
    )

length-order_rows : (o : SearchOrderBy) (rs : List Row) → length (order_rows o rs) ≡ length rs
length-order_rows score rs = length-reverse (sort_by time rs) ∙ length-sort_by time rs
length-order_rows time_desc rs = length-reverse (sort_by time rs) ∙ length-sort_by time rs
length-order_rows time_asc rs = length-sort_by time rs

length-like_fallback :
    (query : Text) (n : ℕ) (opts : SearchOptions) (ids : List ℕ) (db : SessionDb)
    → length (search_like_fallback query n opts ids db)
      ≡ min n (length (retain (wanted query opts ids) (join_messages db db.messages)))
unfolding search_like_fallback
length-like_fallback query n opts ids db =
    let rows = retain (wanted query opts ids) (join_messages db db.messages) in
    length-map (λ r. result_of (take 200 r.message.content_full) 0 r)
      (take n (order_rows opts.order_by rows))
    ∙ length-take n (order_rows opts.order_by rows)
    ∙ ap (min n) (length-order_rows opts.order_by rows)

-- A fallback that is not full has every row that was wanted.
like_fallback_all :
    (query : Text) (n : ℕ) (opts : SearchOptions) (ids : List ℕ) (db : SessionDb) (r : Row)
    → length (search_like_fallback query n opts ids db) < n
    → Has r (join_messages db db.messages)
    → wanted query opts ids r ≡ true
    → Has
        (result_of (take 200 r.message.content_full) 0 r)
        (search_like_fallback query n opts ids db)
unfolding search_like_fallback
like_fallback_all query n opts ids db r lt h w =
    let rows = retain (wanted query opts ids) (join_messages db db.messages) in
    let few = length-like_fallback query n opts ids db in
    let ordered = order_rows opts.order_by rows in
    Has-map_of (λ r. result_of (take 200 r.message.content_full) 0 r) r (take n ordered)
      (rw (take_all n ordered (ground (arith, few, length-order_rows opts.order_by rows))) (
        Has-order_rows_of opts.order_by r rows
          (Has-retain_of (wanted query opts ids) r (join_messages db db.messages) h w)))

-- A wanted message is among the results of the index or found by LIKE.
combined_all :
    (query : Text) (opts : SearchOptions) (limit : ℕ) (db : SessionDb) (found : List SearchResult)
    (r : Row)
    → IsPlain query
    → length (
        found
        ++ search_like_fallback query
            (limit - length found)
            opts
            (map (λ x. x.message_id) found)
            db)
      < limit
    → IsJoined db r
    → IsInScope opts r
    → has_text query r.message.content_full ≡ true
    → (x : SearchResult) × Has x (
        found
        ++ search_like_fallback query
            (limit - length found)
            opts
            (map (λ y. y.message_id) found)
            db)
      × (x.message_id ≡ r.message.id)
combined_all query opts limit db found r plain lt joined scope text =
    let ids = map (λ (x : SearchResult). x.message_id) found in
    let more = search_like_fallback query (limit - length found) opts ids db in
    elim (Bool-cases (is_listed r.message.id ids)) [
      | inl e ↦
          let (j, listed, same) = any-Has (λ i. i == r.message.id) ids e in
          let (x, h, f) = Has-map (λ (x : SearchResult). x.message_id) j found listed in
          (x, Has-append_left x found more h, sym f ∙ (==_iff j r.message.id).0 same)
      | inr e ↦
          let row = result_of (take 200 r.message.content_full) 0 r in
          let w : wanted query opts ids r ≡ true =
            rw
              (
                like-has_text query r.message.content_full plain ∙ text,
                IsInScope-in_scope opts r scope,
                e,
              )
              refl in
          (
            row,
            Has-append_right row found more (
                like_fallback_all query (limit - length found) opts ids db r
                  (omega (arith, lt, length-append found more)) (IsJoined-join_messages db r joined)
                  w),
            refl,
          )
    ]

-- Where the index answers, a search for a text without wildcards has at most `limit` results. Every
-- result is a message of the database with its session and project, in the project, the times and the
-- sessions that were asked for, which the index gave or whose text has the query in it, whatever the
-- case of ASCII letters. And if a project was asked for and there are fewer results than the limit,
-- every such message whose text has the query in it is among them.
pub search_fts_full_lem :
    (fts : Fts) (query : Text) (limit : ℕ) (opts : SearchOptions) (db : SessionDb)
    (matches : List Match)
    → IsPlain query
    → fts (escape_fts5_query query) ≡ some matches
    → (results : List SearchResult) × (search_fts_full_with_sessions fts query limit opts db
        ≡ some results)
      × (length results ≤ limit)
      × ((x : SearchResult) → Has x results → IsHit db opts (IsFound query matches) x)
      × ((id : ℕ) (r : Row)
          → opts.project_id ≡ some id
          → length results < limit
          → IsJoined db r
          → IsInScope opts r
          → has_text query r.message.content_full ≡ true
          → (x : SearchResult) × Has x results × (x.message_id ≡ r.message.id))
unfolding search_fts_full_with_sessions search_fts_internal
search_fts_full_lem fts query limit opts db matches plain e =
    elim (Bool-cases (leb limit (length found))) [
      | inl f ↦ (
        found,
        rw (e, f, search_fts_full_with_sessions, search_fts_internal) refl,
        few,
        hits,
        λ id r p lt. absurd (ground (arith, leb→le limit (length found) f)),
      )
      | inr f ↦ elim (Option-cases opts.project_id) [
        | inl p ↦ (
          found,
          rw (e, f, search_fts_full_with_sessions, search_fts_internal) (ap topped p),
          few,
          hits,
          λ id r q. absurd cc,
        )
        | inr (id, p) ↦ (
          found ++ more,
          rw (e, f, search_fts_full_with_sessions, search_fts_internal) (ap topped p),
          ground (
            arith,
            few,
            length-append found more,
            length-like_fallback query (limit - length found) opts ids db,
          ),
          λ x h. elim (Has-append x found more h) [
            | inl k ↦ hits x k
            | inr k ↦
                let (r, row, scope, text, same) =
                  Has-like_fallback query (limit - length found) opts ids db x plain k in
                (r, row, scope, inr text, same)
          ],
          λ i r q lt. combined_all query opts limit db found r plain lt,
        )
      ]
    ]
  where
    ordered : List SearchResult
    ordered = order_results opts.order_by (join_matches opts (join_messages db db.messages) matches)

    found : List SearchResult
    found = take limit ordered

    ids : List ℕ
    ids = map (λ x. x.message_id) found

    more : List SearchResult
    more = search_like_fallback query (limit - length found) opts ids db

    topped : Option ℕ → Option (List SearchResult)
    topped o = elim o [ none ↦ some found | some id ↦ some (found ++ more) ]

    few : length found ≤ limit
    few = ground (arith, length-take limit ordered)

    hits : (x : SearchResult) → Has x found → IsHit db opts (IsFound query matches) x
    hits x h =
        let (r, row, scope, listed, same) = Has-join_matches db opts matches x (
          Has-order_results opts.order_by x
            (join_matches opts (join_messages db db.messages) matches)
            (Has-take limit x ordered h)) in
        (r, row, scope, inl listed, same)
