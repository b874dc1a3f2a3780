-- ===== src/Base/Text.antt =====
-- Text as its code points: what the source uses of Rust's `str`.
use Prim.Native.Nat.{ℕ, zero, suc, ◌+◌, ◌-◌, ◌*◌, ◌/◌, ◌%◌, ◌^◌, ◌<◌}
use mathlib.Core.Path.{◌≡◌, refl, ap, ◌∙◌, subst}
use mathlib.Core.Logic.{inl, inr}
use mathlib.Core.Bool.{Bool, true, false, ◌&&◌, ◌||◌}
use mathlib.Core.List.{List, [], ◌∷◌, ◌++◌, reverse, map}
use mathlib.Core.Option.{Option, none, some}
use native.Mathlib.Omega.{arith}
use loom_host.Base.Tests.{ltb, leb, ◌==◌, if◌then◌else◌, Bool-cases}
use loom_host.Base.Lists.{All, All-append}
use loom_host.Base.Int.{ℤ, pos, negsuc, IsI64}

abbrev pub line_feed : ℕ
line_feed = 10

abbrev pub comma : ℕ
comma = 44

-- `char::is_whitespace`, the White_Space property of Unicode.
unfoldable pub is_whitespace : ℕ → Bool
is_whitespace c =
    (leb 9 c && leb c 13)
    || c == 32
    || c == 0x85
    || c == 0xA0
    || c == 0x1680
    || (leb 0x2000 c && leb c 0x200A)
    || c == 0x2028
    || c == 0x2029
    || c == 0x202F
    || c == 0x205F
    || c == 0x3000

abbrev pub trim_start : List ℕ → List ℕ
trim_start [] = []
trim_start (c ∷ cs) = elim (is_whitespace c) [ true ↦ trim_start cs | false ↦ c ∷ cs ]

-- `str::trim`
unfoldable pub trim : List ℕ → List ℕ
trim s = reverse (trim_start (reverse (trim_start s)))

-- `str::split` at a character: one piece more than there are separators.
unfoldable pub split : ℕ → List ℕ → List ℕ × List (List ℕ)
split sep [] = ([], [])
split sep (c ∷ cs) =
    let (piece, rest) = split sep cs in if c == sep then ([], piece ∷ rest) else (c ∷ piece, rest)

-- A digit's value.
abbrev pub digit? : ℕ → Option ℕ
digit? c = if leb 48 c && leb c 57 then some (c - 48) else none

-- The value of a row of digits read after the value `acc`.
unfoldable pub read_digits : ℕ → List ℕ → Option ℕ
read_digits acc [] = some acc
read_digits acc (c ∷ cs) = elim (digit? c) [ none ↦ none | some d ↦ read_digits (acc * 10 + d) cs ]

-- One digit at least.
unfoldable pub read_number : List ℕ → Option ℕ
read_number [] = none
read_number (c ∷ cs) = read_digits 0 (c ∷ cs)

abbrev in_range : (ℕ → ℤ) → ℕ → Option ℕ → Option ℤ
in_range sign limit none = none
in_range sign limit (some n) = if leb n limit then some (sign n) else none

-- A number's negation.
abbrev pub neg : ℕ → ℤ
neg zero = pos 0
neg (suc n) = negsuc n

-- `str::parse::<i64>`
unfoldable pub parse_i64 : List ℕ → Option ℤ
parse_i64 [] = none
parse_i64 (c ∷ cs) =
    if c == b'-'
    then in_range neg (2 ^ 63) (read_number cs)
    else if c == b'+'
    then in_range pos (2 ^ 63 - 1) (read_number cs)
    else in_range pos (2 ^ 63 - 1) (read_number (c ∷ cs))

abbrev within : ℕ → Option ℕ → Option ℕ
within limit none = none
within limit (some n) = if leb n limit then some n else none

-- `str::parse::<u32>`
unfoldable pub parse_u32 : List ℕ → Option ℕ
parse_u32 [] = none
parse_u32 (c ∷ cs) =
    within (2 ^ 32 - 1) (if c == b'+' then read_number cs else read_number (c ∷ cs))

-- `to_string` of a number: its decimal digits, the values first. A number has no more digits than
-- its own value and one.
unfoldable pub digits_fuel : ℕ → ℕ → List ℕ
digits_fuel zero n = []
digits_fuel (suc fuel) n =
    let rest = digits_fuel fuel (n / 10) in if ltb n 10 then n ∷ [] else rest ++ (n % 10) ∷ []

unfoldable pub digits : ℕ → List ℕ
digits n = digits_fuel (suc n) n

abbrev pub char_of : ℕ → ℕ
char_of d = d + 48

-- The characters of a number, and of an integer.
unfoldable pub show_ℕ : ℕ → List ℕ
show_ℕ n = map char_of (digits n)

unfoldable pub show_ℤ : ℤ → List ℕ
show_ℤ (pos n) = show_ℕ n
show_ℤ (negsuc n) = b'-' ∷ show_ℕ (suc n)

abbrev pub IsDigit : ℕ → Type 0
IsDigit d = d < 10

digits_fuel-IsDigit : (fuel n : ℕ) → All IsDigit (digits_fuel fuel n)
unfolding digits_fuel
digits_fuel-IsDigit zero n = tt
digits_fuel-IsDigit (suc fuel) n = elim (Bool-cases (ltb n 10)) [
  | inl e ↦ rw e (ground arith, tt)
  | inr e ↦ rw e (
      All-append IsDigit (digits_fuel fuel (n / 10)) ((n % 10) ∷ [])
        (digits_fuel-IsDigit fuel (n / 10)) (omega arith, tt))
]

pub digits-IsDigit : (n : ℕ) → All IsDigit (digits n)
unfolding digits
digits-IsDigit n = digits_fuel-IsDigit (suc n) n

-- The value of digits after `acc`.
abbrev pub value : ℕ → List ℕ → ℕ
value acc [] = acc
value acc (d ∷ ds) = value (acc * 10 + d) ds

value-append : (acc : ℕ) (ds es : List ℕ) → value acc (ds ++ es) ≡ value (value acc ds) es
value-append acc [] es = refl
value-append acc (d ∷ ds) es = value-append (acc * 10 + d) ds es

value-digits_fuel : (fuel n : ℕ) → n < fuel → value 0 (digits_fuel fuel n) ≡ n
unfolding digits_fuel
value-digits_fuel zero n h = absurd (omega arith)
value-digits_fuel (suc fuel) n h = elim (Bool-cases (ltb n 10)) [
  | inl e ↦ rw e (omega arith)
  | inr e ↦
      let ih = value-digits_fuel fuel (n / 10) (ground arith) in
      rw e (value-append 0 (digits_fuel fuel (n / 10)) ((n % 10) ∷ []) ∙ rw ih (omega arith))
]

pub value-digits : (n : ℕ) → value 0 (digits n) ≡ n
unfolding digits
value-digits n = value-digits_fuel (suc n) n (omega arith)

read_digits-map :
    (acc : ℕ) (ds : List ℕ)
    → All IsDigit ds
    → read_digits acc (map char_of ds) ≡ some (value acc ds)
unfolding read_digits
read_digits-map acc [] h = refl
read_digits-map acc (d ∷ ds) (h, hs) =
    let one : digit? (char_of d) ≡ some d = ground arith in
    rw (one, read_digits) (read_digits-map (acc * 10 + d) ds hs)

digits_fuel-cons : (fuel n : ℕ) → (d : ℕ) × (ds : List ℕ) × (digits_fuel (suc fuel) n ≡ d ∷ ds)
unfolding digits_fuel
digits_fuel-cons fuel n = elim (Bool-cases (ltb n 10)) [
  | inl e ↦ (n, [], rw e refl)
  | inr e ↦
      elim (digits_fuel fuel (n / 10))
        as (λ l.
          (d : ℕ) × (ds : List ℕ) × ((if ltb n 10 then n ∷ [] else l ++ (n % 10) ∷ []) ≡ d ∷ ds)) [
            | [] ↦ (n % 10, [], rw e refl)
            | d ∷ ds ↦ (d, ds ++ (n % 10) ∷ [], rw e refl)
          ]
]

pub read_number-show_ℕ : (n : ℕ) → read_number (show_ℕ n) ≡ some n
unfolding read_number show_ℕ digits
read_number-show_ℕ n =
    let (d, ds, e) = digits_fuel-cons n n in
    let all = read_digits-map 0 (digits n) (digits-IsDigit n) in
    let v = value-digits n in ground (arith, all, v)

pub parse_i64-show_ℤ : (z : ℤ) → IsI64 z → parse_i64 (show_ℤ z) ≡ some z
unfolding parse_i64 show_ℤ show_ℕ digits
parse_i64-show_ℤ (pos n) h =
    let (d, ds, e) = digits_fuel-cons n n in
    let low : All IsDigit (d ∷ ds) = subst (All IsDigit) e (digits_fuel-IsDigit (suc n) n) in
    let r : read_number (map char_of (digits_fuel (suc n) n)) ≡ some n =
      unfold show_ℕ digits in read_number-show_ℕ n in
    ground (arith, low.0)
parse_i64-show_ℤ (negsuc n) h = let r = read_number-show_ℕ (suc n) in ground (arith, r)

-- An integer's text has a first character.
pub show_ℤ_some : (z : ℤ) → (c : ℕ) × (cs : List ℕ) × (show_ℤ z ≡ c ∷ cs)
unfolding show_ℤ show_ℕ digits
show_ℤ_some (pos n) =
    let (d, ds, e) = digits_fuel-cons n n in (char_of d, map char_of ds, ap (map char_of) e)
show_ℤ_some (negsuc n) = (b'-', show_ℕ (suc n), refl)

-- `==` on text.
unfoldable pub same : List ℕ → List ℕ → Bool
same [] [] = true
same [] (d ∷ ds) = false
same (c ∷ cs) [] = false
same (c ∷ cs) (d ∷ ds) = c == d && same cs ds

pub same_iff : (s t : List ℕ) → same s t ≡ true → s ≡ t
unfolding same
same_iff [] [] h = refl
same_iff [] (d ∷ ds) h = cc
same_iff (c ∷ cs) [] h = cc
same_iff (c ∷ cs) (d ∷ ds) h = ground (arith, same_iff cs ds)

-- All pieces of a split, in order.
unfoldable pub pieces : ℕ → List ℕ → List (List ℕ)
pieces sep s = let (piece, rest) = split sep s in piece ∷ rest
