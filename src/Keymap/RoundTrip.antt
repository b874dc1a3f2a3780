-- ===== src/Keymap/RoundTrip.antt =====
-- loom-proto/src/keymap.rs: a table that is written as CSV is read back, later rows over earlier ones.
use mathlib.Core.List.{reverse, reverse-append, reverse-reverse}
use loom_host.Base.{ℕ, suc, ◌+◌, ◌≤◌, if◌then◌else◌, ◌≡◌, refl, ap, sym, subst, ◌∙◌}
use loom_host.Base.{false, ◌||◌, inl, inr, Option, none, some, arith}
use loom_host.Base.{List, [], ◌∷◌, ◌++◌, map, All, All-append}
use loom_host.Base.{is_empty, ◌⊎◌, ◌≢◌, ok}
use loom_host.Base.Int.{ℤ, pos, negsuc, eqb_ℤ, IsI64}
use loom_host.Base.Text.{
  split, trim, trim_start, comma, line_feed, is_whitespace, digits, show_ℕ, show_ℤ, char_of,
  IsDigit, digits-IsDigit, parse_i64-show_ℤ, show_ℤ_some,
}
use loom_host.Keymap.{
  Keymap, lines, strip_return, starts_with, fields, row, insert, rows, from_csv, get,
}

-- A digit or a minus sign.
abbrev pub IsPlain : ℕ → Type 0
IsPlain c = (c ≡ b'-') ⊎ ((48 ≤ c) × (c ≤ 57))

IsPlain-digits : (ds : List ℕ) → All IsDigit ds → All IsPlain (map char_of ds)
IsPlain-digits [] h = tt
IsPlain-digits (d ∷ ds) (h, hs) = (inr (omega arith, omega arith), IsPlain-digits ds hs)

show_ℤ-IsPlain : (z : ℤ) → All IsPlain (show_ℤ z)
unfolding show_ℤ show_ℕ
show_ℤ-IsPlain (pos n) = IsPlain-digits (digits n) (digits-IsDigit n)
show_ℤ-IsPlain (negsuc n) = (inl refl, IsPlain-digits (digits (suc n)) (digits-IsDigit (suc n)))

-- No white space and no line feed.
abbrev IsInk : ℕ → Type 0
IsInk c = (is_whitespace c ≡ false) × (c ≢ line_feed) × (c ≢ 13)

IsPlain-IsInk : (cs : List ℕ) → All IsPlain cs → All IsInk cs
unfolding is_whitespace
IsPlain-IsInk [] h = tt
IsPlain-IsInk (c ∷ cs) (h, hs) = ((ground arith, ground arith, ground arith), IsPlain-IsInk cs hs)

All-reverse : (cs : List ℕ) → All IsInk cs → All IsInk (reverse cs)
All-reverse [] h = tt
All-reverse (c ∷ cs) (h, hs) =
    subst (All IsInk) (sym (reverse-append (c ∷ []) cs))
      (All-append IsInk (reverse cs) (c ∷ []) (All-reverse cs hs) (h, tt))

trim_start_ink : (cs : List ℕ) → All IsInk cs → trim_start cs ≡ cs
trim_start_ink [] h = refl
trim_start_ink (c ∷ cs) (h, hs) = rw (trim_start, h.0) refl

trim_ink : (cs : List ℕ) → All IsInk cs → trim cs ≡ cs
unfolding trim
trim_ink cs h =
    ap (λ s. reverse (trim_start (reverse s))) (trim_start_ink cs h)
    ∙ ap reverse (trim_start_ink (reverse cs) (All-reverse cs h))
    ∙ reverse-reverse cs

-- Splitting at the first separator.
split-append :
    (sep : ℕ) (cs rest : List ℕ)
    → All (λ c. c ≢ sep) cs
    → split sep (cs ++ (sep ∷ rest)) ≡ (cs, (split sep rest).0 ∷ (split sep rest).1)
unfolding split
split-append sep [] rest h = ground arith
split-append sep (c ∷ cs) rest (h, hs) = let ih = split-append sep cs rest hs in ground arith

split_none : (sep : ℕ) (cs : List ℕ) → All (λ c. c ≢ sep) cs → split sep cs ≡ (cs, [])
unfolding split
split_none sep [] h = refl
split_none sep (c ∷ cs) (h, hs) = let ih = split_none sep cs hs in ground arith

abbrev pub line_of : ℤ × ℤ → List ℕ
line_of (a, b) = show_ℤ a ++ (comma ∷ show_ℤ b)

-- A row for each pair.
abbrev pub csv_of : List (ℤ × ℤ) → List ℕ
csv_of [] = []
csv_of (p ∷ ps) = line_of p ++ (line_feed ∷ csv_of ps)

-- The rows, one after the other, into a table.
abbrev pub inserts : List (ℤ × ℤ) → Keymap → Keymap
inserts [] m = m
inserts ((a, b) ∷ ps) m = inserts ps (insert a b m)

abbrev AreI64 : ℤ × ℤ → Type 0
AreI64 (a, b) = IsI64 a × IsI64 b

line_of-IsInk : (p : ℤ × ℤ) → All IsInk (line_of p)
unfolding is_whitespace
line_of-IsInk (a, b) =
    All-append IsInk (show_ℤ a) (comma ∷ show_ℤ b) (IsPlain-IsInk (show_ℤ a) (show_ℤ-IsPlain a))
      ((refl, ground arith, ground arith), IsPlain-IsInk (show_ℤ b) (show_ℤ-IsPlain b))

not_comma : (cs : List ℕ) → All IsPlain cs → All (λ c. c ≢ comma) cs
not_comma [] h = tt
not_comma (c ∷ cs) (h, hs) = (ground arith, not_comma cs hs)

not_feed : (cs : List ℕ) → All IsInk cs → All (λ c. c ≢ line_feed) cs
not_feed [] h = tt
not_feed (c ∷ cs) (h, hs) = (h.1, not_feed cs hs)

strip_return_ink : (cs : List ℕ) → All IsInk cs → strip_return cs ≡ cs
strip_return_ink [] h = refl
strip_return_ink (c ∷ []) (h, hs) = ground arith
strip_return_ink (c ∷ d ∷ cs) (h, hs) = ap (λ l. c ∷ l) (strip_return_ink (d ∷ cs) hs)

lines-csv_of :
    (p : ℤ × ℤ) (ps : List (ℤ × ℤ)) → lines (csv_of (p ∷ ps)) ≡ line_of p ∷ lines (csv_of ps)
unfolding lines
lines-csv_of p ps =
    let cut =
      split-append line_feed (line_of p) (csv_of ps) (not_feed (line_of p) (line_of-IsInk p)) in
    rw cut (ap (λ l. l ∷ lines (csv_of ps)) (strip_return_ink (line_of p) (line_of-IsInk p)))

-- A row is neither blank nor a comment.
speaks : (a b : ℤ) → (is_empty (line_of (a, b)) || starts_with b'#' (line_of (a, b))) ≡ false
speaks a b =
    let (c, cs, e) = show_ℤ_some a in
    let first : All IsPlain (c ∷ cs) = subst (All IsPlain) e (show_ℤ-IsPlain a) in
    let plain = first.0 in rw e (ground arith)

row_parts :
    (n : ℕ) (line first second : List ℕ) (p : ℤ × ℤ)
    → (is_empty (trim line) || starts_with b'#' (trim line)) ≡ false
    → split comma (trim line) ≡ (first, second ∷ [])
    → fields n first second ≡ ok p
    → row n line ≡ ok (some p)
unfolding row
row_parts n line first second p speech whole both = ground arith

row-line_of : (n : ℕ) (p : ℤ × ℤ) → AreI64 p → row n (line_of p) ≡ ok (some p)
unfolding fields
row-line_of n (a, b) (ha, hb) =
    let line = line_of (a, b) in
    let text : trim line ≡ line = trim_ink line (line_of-IsInk (a, b)) in
    let plain_b = show_ℤ-IsPlain b in
    let cut = split-append comma (show_ℤ a) (show_ℤ b) (not_comma (show_ℤ a) (show_ℤ-IsPlain a)) in
    let last = split_none comma (show_ℤ b) (not_comma (show_ℤ b) plain_b) in
    let ta = trim_ink (show_ℤ a) (IsPlain-IsInk (show_ℤ a) (show_ℤ-IsPlain a)) in
    let tb = trim_ink (show_ℤ b) (IsPlain-IsInk (show_ℤ b) plain_b) in
    let pa = parse_i64-show_ℤ a ha in
    let pb = parse_i64-show_ℤ b hb in
    let whole : split comma (trim line) ≡ (show_ℤ a, show_ℤ b ∷ []) =
      ap (split comma) text ∙ cut ∙ ap (λ q. (show_ℤ a, q.0 ∷ q.1)) last in
    let both : fields n (show_ℤ a) (show_ℤ b) ≡ ok (a, b) = rw (fields, ta, pa, tb, pb) refl in
    let speech : (is_empty (trim line) || starts_with b'#' (trim line)) ≡ false =
      ap (λ l. is_empty l || starts_with b'#' l) text ∙ speaks a b in
    row_parts n line (show_ℤ a) (show_ℤ b) (a, b) speech whole both

rows-csv_of :
    (n : ℕ) (ps : List (ℤ × ℤ)) (m : Keymap)
    → All AreI64 ps
    → rows n (lines (csv_of ps)) m ≡ ok (inserts ps m)
unfolding rows
rows-csv_of n [] m h = unfold lines split in refl
rows-csv_of n (p ∷ ps) m (h, hs) =
    rw (lines-csv_of p ps, row-line_of n p h) (rows-csv_of (n + 1) ps (insert p.0 p.1 m) hs)

-- The last pair for a code.
abbrev pub last_of : ℤ → List (ℤ × ℤ) → Option ℤ → Option ℤ
last_of k [] found = found
last_of k ((a, b) ∷ ps) found = last_of k ps (if eqb_ℤ a k then some b else found)

get-insert :
    (k j v : ℤ) (m : Keymap) → get k (insert j v m) ≡ (if eqb_ℤ j k then some v else get k m)
unfolding get insert
get-insert k j v [] = refl
get-insert k j v ((i, w) ∷ m) = let ih = get-insert k j v m in ground arith

get-inserts :
    (k : ℤ) (ps : List (ℤ × ℤ)) (m : Keymap) → get k (inserts ps m) ≡ last_of k ps (get k m)
get-inserts k [] m = refl
get-inserts k ((a, b) ∷ ps) m =
    get-inserts k ps (insert a b m) ∙ ap (last_of k ps) (get-insert k a b m)

-- A table written as CSV, a row `from,to` for each pair, is read without an error, and then every
-- code is mapped as the last row for it says, or not at all if no row does; for 64-bit codes.
pub from_csv-csv_of :
    (ps : List (ℤ × ℤ))
    → All AreI64 ps
    → (m : Keymap) × (from_csv (csv_of ps) ≡ ok m) × ((k : ℤ) → get k m ≡ last_of k ps none)
unfolding from_csv
from_csv-csv_of ps h =
    (inserts ps [], rows-csv_of 1 ps [] h, λ k. get-inserts k ps [] ∙ ap (last_of k ps) (nothing k))
  where
    nothing : (k : ℤ) → get k [] ≡ none
    nothing k = unfold get in refl
