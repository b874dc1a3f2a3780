-- ===== src/Keymap.antt =====
-- loom-proto/src/keymap.rs: keycode tables, read from CSV text. Text is its code points. The errors
-- keep the number of the line and the fault, not the wording.
pub mod RoundTrip
mod Tests
use loom_host.Base.{ℕ, zero, suc, ◌+◌, ◌==◌, if◌then◌else◌, Bool, true, false, ◌||◌}
use loom_host.Base.{Option, none, some, List, [], ◌∷◌, length, is_empty, Result, ok, err, ◌>>=◌}
use loom_host.Base.Int.{ℤ, eqb_ℤ}
use loom_host.Base.Text.{split, trim, comma, line_feed, parse_i64}

-- `HashMap<i64, i64>`, each key once.
abbrev pub Keymap : Type 0
Keymap = List (ℤ × ℤ)

pub data Malformed : Type 0 where
  expected_pair bad_from bad_to : ℕ → Malformed

-- A line without a carriage return at its end.
abbrev pub strip_return : List ℕ → List ℕ
strip_return [] = []
strip_return (c ∷ []) = if c == 13 then [] else c ∷ []
strip_return (c ∷ d ∷ cs) = c ∷ strip_return (d ∷ cs)

-- `str::lines`: a line feed ends a line, and what follows the last one is a line if there is any.
abbrev pub lines_of : List ℕ → List (List ℕ) → List (List ℕ)
lines_of [] [] = []
lines_of (c ∷ cs) [] = (c ∷ cs) ∷ []
lines_of piece (next ∷ rest) = strip_return piece ∷ lines_of next rest

unfoldable pub lines : List ℕ → List (List ℕ)
lines s = let (piece, rest) = split line_feed s in lines_of piece rest

abbrev pub starts_with : ℕ → List ℕ → Bool
starts_with c [] = false
starts_with c (d ∷ ds) = d == c

-- The two fields of a line, parsed.
unfoldable pub fields : ℕ → List ℕ → List ℕ → Result (ℤ × ℤ) Malformed
fields n from to = elim (parse_i64 (trim from)) [
  | none ↦ err (bad_from n)
  | some a ↦ elim (parse_i64 (trim to)) [ none ↦ err (bad_to n) | some b ↦ ok (a, b) ]
]

-- What line `n` says: nothing if it is blank or a comment.
unfoldable pub row : ℕ → List ℕ → Result (Option (ℤ × ℤ)) Malformed
row n line =
    let text = trim line in
    let (first, rest) = split comma text in
    if is_empty text || starts_with b'#' text then ok none else elim rest [
      | [] ↦ err (expected_pair n)
      | second ∷ others ↦ fields n first second >>= λ pair. ok (some pair)
    ]

unfoldable pub insert : ℤ → ℤ → Keymap → Keymap
insert k v [] = (k, v) ∷ []
insert k v ((j, w) ∷ m) = if eqb_ℤ j k then (k, v) ∷ m else (j, w) ∷ insert k v m

abbrev insert_row : Option (ℤ × ℤ) → Keymap → Keymap
insert_row none m = m
insert_row (some (k, v)) m = insert k v m

-- The loop over the lines, from line `n` on.
unfoldable pub rows : ℕ → List (List ℕ) → Keymap → Result Keymap Malformed
rows n [] m = ok m
rows n (line ∷ ls) m = row n line >>= λ r. rows (n + 1) ls (insert_row r m)

unfoldable pub from_csv : List ℕ → Result Keymap Malformed
from_csv text = rows 1 (lines text) []

unfoldable pub get : ℤ → Keymap → Option ℤ
get code [] = none
get code ((j, w) ∷ m) = if eqb_ℤ j code then some w else get code m

unfoldable pub len : Keymap → ℕ
len m = length m
