-- ===== src/Keymap/Tests.antt =====
-- loom-proto/src/keymap.rs: the crate's own test cases, and the theorem at a concrete input.
use loom_host.Base.{ℕ, ◌≡◌, refl, arith, none, some, List, [], ◌∷◌, ◌++◌, ok, err}
use loom_host.Base.Int.{ℤ, pos, negsuc}
use loom_host.Base.Text.{split, trim, is_whitespace, parse_i64, read_number, read_digits}
use loom_host.Control.Codes.{ascii}
use loom_host.Keymap.{
  Keymap, lines, fields, row, insert, rows, from_csv, get, expected_pair, bad_to,
}
use loom_host.Keymap.RoundTrip.{csv_of, last_of, from_csv-csv_of}

abbrev table : Keymap
table = (pos 7, pos 11) ∷ (pos 66, pos 28) ∷ []

-- A comment, a blank line, rows, and white space round a field.
abbrev csv : List ℕ
csv = ascii "# header" ++ (10 ∷ 10 ∷ ascii "7,11" ++ (13 ∷ 10 ∷ ascii "  66 , 28 " ++ (10 ∷ [])))

parses : from_csv csv ≡ ok table
unfolding from_csv lines rows row fields insert split trim is_whitespace parse_i64 read_number
    read_digits
parses = refl

lookups : get (pos 66) table ≡ some (pos 28)
unfolding get
lookups = refl

unmapped : get (pos 999) table ≡ none
unfolding get
unmapped = refl

one_field : from_csv (ascii "29") ≡ err (expected_pair 1)
unfolding from_csv lines rows row fields insert split trim is_whitespace parse_i64 read_number
    read_digits
one_field = refl

no_number : from_csv (ascii "29,x") ≡ err (bad_to 1)
unfolding from_csv lines rows row fields insert split trim is_whitespace parse_i64 read_number
    read_digits
no_number = refl

abbrev pairs : List (ℤ × ℤ)
pairs = (pos 29, pos 30) ∷ (negsuc 0, pos 5) ∷ (pos 29, pos 31) ∷ []

from_csv-csv_of_example :
    (m : Keymap) × (from_csv (csv_of pairs) ≡ ok m) × ((k : ℤ) → get k m ≡ last_of k pairs none)
from_csv-csv_of_example = from_csv-csv_of pairs (omega arith)
