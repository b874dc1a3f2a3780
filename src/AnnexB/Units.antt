-- ===== src/AnnexB/Units.antt =====
-- loom-encode/src/annexb.rs: access units said without the code, and the length prefix.
use loom_host.Base.{ℕ, zero, suc, ◌+◌, ◌*◌, ◌/◌, ◌%◌, ◌^◌, ◌≤◌, ◌<◌, ◌≡◌, refl, ap, sym, ◌∙◌, arith}
use loom_host.Base.{Bool, List, [], ◌∷◌, ◌++◌, length, get_or, any}
use loom_host.Base.{◌||◌, ap₂, bit_and, ◌==◌, All, All-append_inv}
use loom_host.Base.Bits.{all_below, agree_below}
use loom_host.Base.Bytes.{IsByte}
use loom_host.AnnexB.{start_code, prefix_loop, is_idr}

-- 256 to the power of a size: how many lengths have room in a prefix.
abbrev pub room : ℕ → ℕ
room zero = 1
room (suc size) = 256 * room size

-- A big-endian number.
abbrev pub be_value : List ℕ → ℕ
be_value [] = 0
be_value (b ∷ bs) = b * room (length bs) + be_value bs

-- A source is a sequence of units that are not empty, each after a prefix of a fixed size that
-- says its length, as a big-endian number of 64 bits.
pub data Units (size : ℕ) : List ℕ → List (List ℕ) → Type 0 where
  done : Units size [] []
  unit :
      (prefix nal : List ℕ) {src : List ℕ} {nals : List (List ℕ)}
      → length prefix ≡ size
      → be_value prefix % 2 ^ 64 ≡ length nal
      → 1 ≤ length nal
      → Units size src nals
      → Units size (prefix ++ (nal ++ src)) (nal ∷ nals)

-- The same units in Annex-B.
abbrev pub annex_b : List (List ℕ) → List ℕ
annex_b [] = []
annex_b (nal ∷ nals) = (start_code ++ nal) ++ annex_b nals

-- The unit type in a unit's first byte, H.265 table 7-1: bits 1 to 6.
abbrev pub idr_byte : ℕ → Bool
idr_byte b = b / 2 % 64 == 19 || b / 2 % 64 == 20

abbrev pub has_idr : List (List ℕ) → Bool
has_idr nals = any (λ nal. idr_byte (get_or nal 0 0)) nals

type_bits : (x : ℕ) → x < 256 → bit_and (x / 2) 0x3f ≡ x / 2 % 64
unfolding all_below
type_bits = agree_below (λ x. bit_and (x / 2) 0x3f) (λ x. x / 2 % 64) 256 refl

is_idr_lem : (b : ℕ) → b < 256 → is_idr b ≡ idr_byte b
unfolding is_idr
is_idr_lem b h = rw (type_bits b h) refl

first-IsByte : (nal : List ℕ) → All IsByte nal → get_or nal 0 0 < 256
first-IsByte [] h = omega arith
first-IsByte (b ∷ bs) h = h.0

-- What the code tests is the unit type.
pub any-is_idr :
    {size : ℕ} {src : List ℕ} {nals : List (List ℕ)}
    → Units size src nals
    → All IsByte src
    → any (λ nal. is_idr (get_or nal 0 0)) nals ≡ has_idr nals
any-is_idr done h = refl
any-is_idr (unit prefix nal {src} n len full u) h =
    let (_, rest) = All-append_inv IsByte prefix (nal ++ src) h in
    let (byte, others) = All-append_inv IsByte nal src rest in
    ap₂ (λ a b. a || b) (is_idr_lem (get_or nal 0 0) (first-IsByte nal byte)) (any-is_idr u others)

-- The big-endian prefix of a length.
abbrev pub be_prefix : ℕ → ℕ → List ℕ
be_prefix zero len = []
be_prefix (suc size) len = be_prefix size (len / 256) ++ (len % 256 ∷ [])

prefix_loop-append :
    (len : ℕ) (xs : List ℕ) (b : ℕ)
    → prefix_loop len (xs ++ (b ∷ [])) ≡ prefix_loop len xs * 256 % 2 ^ 64 + b
unfolding prefix_loop
prefix_loop-append len [] b = refl
prefix_loop-append len (x ∷ xs) b = prefix_loop-append (len * 256 % 2 ^ 64 + x) xs b

-- A big-endian prefix reads as its length, if it has room for it and the length is a `usize`.
pub prefix_loop-be_prefix :
    (size len : ℕ) → len < room size → len < 2 ^ 64 → prefix_loop 0 (be_prefix size len) ≡ len
unfolding prefix_loop
prefix_loop-be_prefix zero len fits word = omega arith
prefix_loop-be_prefix (suc size) len fits word = omega (
  arith,
  prefix_loop-append 0 (be_prefix size (len / 256)) (len % 256),
  prefix_loop-be_prefix size (len / 256) (omega arith) (omega arith),
)

wraps : (x k : ℕ) → (k * 2 ^ 64 + x) % 2 ^ 64 ≡ x % 2 ^ 64
wraps x k = omega arith

distributes :
    (q m r b power value : ℕ)
    → q * power * m + ((r + b) * power + value) ≡ (q * m + r) * power + (b * power + value)
distributes q m r b power value = grind arith

-- One more byte, with what the shift loses.
one_byte :
    (len b power value : ℕ)
    → (len * 256 / 2 ^ 64) * power * 2 ^ 64 + ((len * 256 % 2 ^ 64 + b) * power + value)
      ≡ len * (256 * power) + (b * power + value)
one_byte len b power value =
    let q = len * 256 / 2 ^ 64 in
    let r = len * 256 % 2 ^ 64 in
    let split : q * 2 ^ 64 + r ≡ len * 256 = omega arith in
    let assoc : len * 256 * power ≡ len * (256 * power) = grind arith in
    distributes q (2 ^ 64) r b power value
    ∙ ap (λ x. x * power + (b * power + value)) split
    ∙ ap (λ x. x + (b * power + value)) assoc

-- The loop reads the big-endian number, of 64 bits.
pub prefix_loop-be_value :
    (len : ℕ) (bs : List ℕ)
    → All IsByte bs
    → len < 2 ^ 64
    → prefix_loop len bs ≡ (len * room (length bs) + be_value bs) % 2 ^ 64
unfolding prefix_loop
prefix_loop-be_value len [] h lt = omega arith
prefix_loop-be_value len (b ∷ bs) (hb, hs) lt =
    let k = room (length bs) in
    prefix_loop-be_value (len * 256 % 2 ^ 64 + b) bs hs (omega arith)
    ∙ sym (wraps ((len * 256 % 2 ^ 64 + b) * k + be_value bs) (len * 256 / 2 ^ 64 * k))
    ∙ ap (λ x. x % 2 ^ 64) (one_byte len b k (be_value bs))
