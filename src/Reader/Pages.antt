-- ===== src/Reader/Pages.antt =====
-- src/reader.rs, `read_messages` and `read_messages_raw`: a page of the messages of a session file.
-- `parsed` is what the adapter makes of the file, or for the raw read its lines that are JSON.
use mathlib.Core.List.{reverse_aux}
use ai_cli_session_db.Prelude.{
  ℕ, zero, suc, ◌+◌, ◌-◌, ◌%◌, ◌^◌, ◌<◌, ◌≤◌, min, List, [], ◌∷◌, ◌++◌, Option, none, some, Bool,
  not, ◌≡◌, is_empty, take-append-drop, length-take, refl, sym, ap, ◌∙◌, inl, inr, reverse, length,
  take, drop, ltb, leb, if◌then◌else◌, Bool-cases, arith, take_all, drop_all, length-drop,
}

pub data Order : Type 0 where
  asc desc : Order

pub record MessagesResult (A : Type 0) : Type 0 where
  pub messages : List A
  pub total : ℕ
  pub has_more : Bool

-- How a read ends: no such session, a panic, or a page.
pub data ReadOutcome (A : Type 0) : Type 0 where
  missing panicked : ReadOutcome A
  page : MessagesResult A → ReadOutcome A

module _ {A : Type 0} where
  abbrev pub in_order : Order → List A → List A
  in_order asc ms = ms
  in_order desc ms = reverse ms

  -- `ms[start..end]`, which panics where the bounds are out of order or beyond the list.
  abbrev slice : ℕ → ℕ → List A → Option (List A)
  slice start end ms =
      if leb start end
      then (if leb end (length ms) then some (take (end - start) (drop start ms)) else none)
      else none

  -- The sum of two `usize` wraps, as in a release build; a debug build panics instead.
  unfoldable pub read_messages : Option (List A) → ℕ → ℕ → Order → ReadOutcome A
  read_messages parsed limit offset order = elim parsed [
    | none ↦ missing
    | some ms ↦
        let total = length ms in
        let start = min offset total in
        let end = min ((offset + limit) % 2 ^ 64) total in
        elim (slice start end (in_order order ms)) [
          | none ↦ panicked
          | some messages ↦
              page (record { messages = messages; total = total; has_more = ltb end total })
        ]
  ]

  length-reverse_aux : (xs ys : List A) → length (reverse_aux xs ys) ≡ length xs + length ys
  length-reverse_aux [] ys = omega arith
  length-reverse_aux (x ∷ xs) ys = omega (arith, length-reverse_aux xs (x ∷ ys))

  length-in_order : (order : Order) (ms : List A) → length (in_order order ms) ≡ length ms
  length-in_order asc ms = refl
  length-in_order desc ms = omega (arith, length-reverse_aux ms [])

  take-length : (n : ℕ) (xs : List A) → take (min n (length xs)) xs ≡ take n xs
  take-length n xs = elim (Bool-cases (leb n (length xs))) [
    | inl e ↦ ap (λ k. take k xs) (ground (arith, e))
    | inr e ↦
        ap (λ k. take k xs) (ground (arith, e))
        ∙ take_all (length xs) xs (omega arith)
        ∙ sym (take_all n xs (ground (arith, e)))
  ]

  -- The bounds of a page, cut to the list, give the page.
  slice_lem :
      (offset limit : ℕ) (xs : List A)
      → slice (min offset (length xs)) (min (offset + limit) (length xs)) xs
        ≡ some (take limit (drop offset xs))
  slice_lem offset limit xs =
      let bounds : slice (min offset (length xs)) (min (offset + limit) (length xs)) xs
          ≡ some (
              take (min (offset + limit) (length xs) - min offset (length xs))
                (drop (min offset (length xs)) xs)) =
        ground arith in
      bounds
      ∙ ap some (elim (Bool-cases (leb offset (length xs))) [
        | inl e ↦
            let start : min offset (length xs) ≡ offset = ground (arith, e) in
            let size : min (offset + limit) (length xs) - min offset (length xs)
                ≡ min limit (length (drop offset xs)) =
              ground (arith, e, length-drop offset xs) in
            ap (λ k. take k (drop (min offset (length xs)) xs)) size
            ∙ ap (λ k. take (min limit (length (drop offset xs))) (drop k xs)) start
            ∙ take-length limit (drop offset xs)
        | inr e ↦
            let start : min offset (length xs) ≡ length xs = ground (arith, e) in
            let none_left = drop_all offset xs (ground (arith, e)) in
            let at_end : drop (min offset (length xs)) xs ≡ [] =
              ap (λ k. drop k xs) start ∙ drop_all (length xs) xs (omega arith) in
            let size = min (offset + limit) (length xs) - min offset (length xs) in
            ap (take size) at_end
            ∙ take_none size
            ∙ sym (take_none limit)
            ∙ ap (take limit) (sym none_left)
      ])
    where
      take_none : (n : ℕ) → ◌≡◌ {A = List A} (take n []) []
      take_none zero = refl
      take_none (suc n) = refl

  -- What stands behind a page.
  drop-drop : (n k : ℕ) (xs : List A) → drop k (drop n xs) ≡ drop (n + k) xs
  drop-drop zero k xs = ap (λ m. drop m xs) {x = k} {y = 0 + k} (omega arith)
  drop-drop (suc n) k [] = ap (drop k) refl ∙ nothing k ∙ sym (nothing (suc n + k))
    where
      nothing : (m : ℕ) → ◌≡◌ {A = List A} (drop m []) []
      nothing zero = refl
      nothing (suc m) = refl
  drop-drop (suc n) k (x ∷ xs) =
      drop-drop n k xs ∙ ap (λ m. drop m (x ∷ xs)) {x = suc (n + k)} {y = suc n + k} (omega arith)

  more_lem :
      (n : ℕ) (xs : List A) → ltb (min n (length xs)) (length xs) ≡ not (is_empty (drop n xs))
  more_lem zero [] = refl
  more_lem zero (x ∷ xs) = ground arith
  more_lem (suc n) [] = ground arith
  more_lem (suc n) (x ∷ xs) = ground (arith, more_lem n xs)

  -- Where the end of the page is a `usize`, a page is a part of the messages in the order asked for.
  pub read_messages_lem :
      (ms : List A) (limit offset : ℕ) (order : Order)
      → offset + limit < 2 ^ 64
      → read_messages (some ms) limit offset order
        ≡ page (record {
          messages = take limit (drop offset (in_order order ms));
          total = length ms;
          has_more = ltb (min ((offset + limit) % 2 ^ 64) (length ms)) (length ms);
        })
  unfolding read_messages
  read_messages_lem ms limit offset order fits =
      let all = in_order order ms in
      let wrap : (offset + limit) % 2 ^ 64 ≡ offset + limit = omega (arith, fits) in
      let cut : slice (min offset (length ms)) (min ((offset + limit) % 2 ^ 64) (length ms)) all
          ≡ some (take limit (drop offset all)) =
        ap (λ e. slice (min offset (length ms)) (min e (length ms)) all) wrap
        ∙ ap (λ t. slice (min offset t) (min (offset + limit) t) all)
            (sym (length-in_order order ms))
        ∙ slice_lem offset limit all in
      rw (cut, read_messages) refl

  -- Where the end of the page is a `usize`, a read of a session that is there does not panic. The page
  -- that it returns has as many messages as there are behind the offset, up to the limit, and is what
  -- stands between the first `offset` messages, in the order asked for, and a rest; the total is the
  -- number of all, and there is more exactly if the rest is not empty.
  pub read_messages-page :
      (ms : List A) (limit offset : ℕ) (order : Order)
      → offset + limit < 2 ^ 64
      → (r : MessagesResult A) × (rest : List A) × (read_messages (some ms) limit offset order
          ≡ page r)
        × (take offset (in_order order ms) ++ (r.messages ++ rest) ≡ in_order order ms)
        × (length r.messages ≡ min limit (length ms - offset))
        × (r.total ≡ length ms)
        × (r.has_more ≡ not (is_empty rest))
  read_messages-page ms limit offset order fits =
      let all = in_order order ms in
      let same = length-in_order order ms in
      let wrap : (offset + limit) % 2 ^ 64 ≡ offset + limit = omega (arith, fits) in
      let rest = drop limit (drop offset all) in
      (
        record {
          messages = take limit (drop offset all);
          total = length ms;
          has_more = ltb (min ((offset + limit) % 2 ^ 64) (length ms)) (length ms);
        },
        rest,
        read_messages_lem ms limit offset order fits,
        ap (λ l. take offset all ++ l) (take-append-drop limit (drop offset all))
            ∙ take-append-drop offset all,
        length-take limit (drop offset all)
            ∙ ap (min limit) (length-drop offset all ∙ ap (λ n. n - offset) same),
        refl,
        ap (λ e. ltb (min e (length ms)) (length ms)) wrap
            ∙ ap (λ t. ltb (min (offset + limit) t) t) (sym same)
            ∙ more_lem (offset + limit) all
            ∙ ap (λ l. not (is_empty l)) (sym (drop-drop offset limit all)),
      )

  -- Where the sum of the two is not a `usize` and wraps to a number below the length of the session,
  -- the read panics: a limit that stands for "all" cannot be given with an offset.
  pub read_messages-overflow :
      (ms : List A) (limit offset : ℕ) (order : Order)
      → limit < 2 ^ 64
      → offset < 2 ^ 64
      → 2 ^ 64 ≤ offset + limit
      → offset + limit < 2 ^ 64 + length ms
      → read_messages (some ms) limit offset order ≡ panicked
  unfolding read_messages
  read_messages-overflow ms limit offset order small_limit small_offset over short =
      let wrap : (offset + limit) % 2 ^ 64 ≡ offset + limit - 2 ^ 64 =
        omega (arith, small_limit, small_offset, over) in
      rw (wrap, read_messages) (ground (arith, small_limit, over, short))
