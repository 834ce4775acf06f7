-- ===== src/Prelude/Lines.antt =====
-- `str::lines`, `str::trim` and `str::split_whitespace` of the standard library, over code points.
use Prim.Native.Nat.{ℕ}
use mathlib.Core.Bool.{Bool, true, false, ◌||◌, ◌&&◌}
use mathlib.Core.List.{List, [], ◌∷◌, ◌++◌, reverse}
use ai_cli_session_db.Prelude.{Text, ◌==◌, leb, if◌then◌else◌}

-- `char::is_whitespace`: the White_Space property of Unicode.
unfoldable pub is_whitespace : ℕ → Bool
is_whitespace c =
    (leb 9 c && leb c 13)
    || c == 0x20
    || c == 0x85
    || c == 0xa0
    || c == 0x1680
    || (leb 0x2000 c && leb c 0x200a)
    || c == 0x2028
    || c == 0x2029
    || c == 0x202f
    || c == 0x205f
    || c == 0x3000

unfoldable pub trim_start : Text → Text
trim_start [] = []
trim_start (c ∷ s) = let rest = trim_start s in if is_whitespace c then rest else c ∷ s

unfoldable pub trim : Text → Text
unfolding trim_start
trim s = reverse (trim_start (reverse (trim_start s)))

-- A line loses one carriage return before its line feed.
strip_cr : Text → Text
strip_cr [] = []
strip_cr (c ∷ s) = if c == 13 then reverse s else reverse (c ∷ s)

-- `line` is the open line, reversed. The text after the last line feed is a line unless it is empty,
-- and it keeps a carriage return.
lines_from : Text → Text → List Text
unfolding strip_cr
lines_from line [] = elim line [ [] ↦ [] | c ∷ s ↦ reverse (c ∷ s) ∷ [] ]
lines_from line (c ∷ s) =
    let closed = strip_cr line ∷ lines_from [] s in
    let open_line = lines_from (c ∷ line) s in if c == 10 then closed else open_line

unfoldable pub lines : Text → List Text
unfolding lines_from
lines s = lines_from [] s

abbrev pub starts_with_char : ℕ → Text → Bool
starts_with_char c [] = false
starts_with_char c (d ∷ s) = d == c

-- `str::split_whitespace`, `word` being what was read of the word before.
abbrev pub words_from : Text → Text → List Text
words_from [] [] = []
words_from (w ∷ ws) [] = (w ∷ ws) ∷ []
words_from word (c ∷ cs) = elim (is_whitespace c) [
  | true ↦ elim word [ [] ↦ words_from [] cs | w ∷ ws ↦ (w ∷ ws) ∷ words_from [] cs ]
  | false ↦ words_from (word ++ c ∷ []) cs
]

abbrev pub split_whitespace : Text → List Text
split_whitespace s = words_from [] s
