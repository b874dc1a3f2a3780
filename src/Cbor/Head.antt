-- ===== src/Cbor/Head.antt =====
-- loom-proto/src/cbor.rs: `encode_head` against a reader of heads written from RFC 8949 §3.
use loom_host.Base.{ℕ, ◌+◌, ◌*◌, ◌/◌, ◌%◌, ◌^◌, ◌≤◌, ◌<◌, bit_or, ◌==◌, ltb, if◌then◌else◌}
use loom_host.Base.{
  ◌≡◌, refl, ap, ap₂, ◌∙◌, arith, Option, none, some, List, [], ◌∷◌, ◌++◌, length, length-append,
  All,
}
use loom_host.Base.Bits.{all_below, agree_below}
use loom_host.Base.Bytes.{IsByte, be16, be32, be64, from_be16, from_be32, from_be64}
use loom_host.Cbor.{encode_head}

-- What a head says: the major type, the argument, and the bytes after the head.
abbrev pub Head : Type 0
Head = ℕ × ℕ × List ℕ

-- The argument in the next one, two, four or eight bytes.
abbrev arg_1 : ℕ → List ℕ → Option Head
arg_1 major (a ∷ bs) = some (major, a, bs)
arg_1 major _ = none

abbrev arg_2 : ℕ → List ℕ → Option Head
arg_2 major (a ∷ b ∷ bs) = some (major, from_be16 a b, bs)
arg_2 major _ = none

abbrev arg_4 : ℕ → List ℕ → Option Head
arg_4 major (a ∷ b ∷ c ∷ d ∷ bs) = some (major, from_be32 a b c d, bs)
arg_4 major _ = none

abbrev arg_8 : ℕ → List ℕ → Option Head
arg_8 major (a ∷ b ∷ c ∷ d ∷ e ∷ f ∷ g ∷ h ∷ bs) = some (major, from_be64 a b c d e f g h, bs)
arg_8 major _ = none

-- The argument that the low five bits of the initial byte announce.
unfoldable pub read_arg : ℕ → ℕ → List ℕ → Option Head
read_arg major info bs =
    if ltb info 24
    then some (major, info, bs)
    else if info == 24
    then arg_1 major bs
    else if info == 25
    then arg_2 major bs
    else if info == 26
    then arg_4 major bs
    else if info == 27
    then arg_8 major bs
    else none

unfoldable pub read_head : List ℕ → Option Head
read_head [] = none
read_head (b ∷ bs) = read_arg (b / 32) (b % 32) bs

or_table : (x : ℕ) → x < 256 → bit_or (x / 32 * 32 % 256) (x % 32) ≡ x
unfolding all_below
or_table = agree_below (λ x. bit_or (x / 32 * 32 % 256) (x % 32)) (λ x. x) 256 refl

-- The initial byte holds the major type above five bits.
initial_byte :
    (major info : ℕ) → major < 8 → info < 32 → bit_or (major * 32 % 256) info ≡ major * 32 + info
initial_byte major info hm hi = grind (arith, or_table (major * 32 + info))

read_initial :
    (major info : ℕ) (bs : List ℕ)
    → major < 8
    → info < 32
    → read_head (bit_or (major * 32 % 256) info ∷ bs) ≡ read_arg major info bs
unfolding read_head
read_initial major info bs hm hi =
    rw (initial_byte major info hm hi)
      (ap₂ (λ m i. read_arg m i bs) {x = (major * 32 + info) / 32} (omega arith) (omega arith))

module _ (major arg : ℕ) (hm : major < 8) where
  -- Each of the five forms of a head is read back.
  reads_small :
      (rest : List ℕ)
      → arg < 24
      → read_head (bit_or (major * 32 % 256) (arg % 256) ∷ rest) ≡ some (major, arg, rest)
  unfolding read_arg
  reads_small rest h =
      ap (λ i. read_head (bit_or (major * 32 % 256) i ∷ rest)) {x = arg % 256} (omega arith)
      ∙ read_initial major arg rest hm (omega arith)
      ∙ ground arith

  reads_1 :
      (rest : List ℕ)
      → arg < 2 ^ 8
      → read_head (bit_or (major * 32 % 256) 24 ∷ arg % 256 ∷ rest) ≡ some (major, arg, rest)
  unfolding read_arg
  reads_1 rest h = read_initial major 24 (arg % 256 ∷ rest) hm (omega arith) ∙ ground arith

  reads_2 :
      (rest : List ℕ)
      → arg < 2 ^ 16
      → read_head ((bit_or (major * 32 % 256) 25 ∷ be16 (arg % 2 ^ 16)) ++ rest)
        ≡ some (major, arg, rest)
  unfolding read_arg
  reads_2 rest h =
      read_initial major 25 (be16 (arg % 2 ^ 16) ++ rest) hm (omega arith) ∙ ground arith

  reads_4 :
      (rest : List ℕ)
      → arg < 2 ^ 32
      → read_head ((bit_or (major * 32 % 256) 26 ∷ be32 (arg % 2 ^ 32)) ++ rest)
        ≡ some (major, arg, rest)
  unfolding read_arg
  reads_4 rest h =
      read_initial major 26 (be32 (arg % 2 ^ 32) ++ rest) hm (omega arith) ∙ ground arith

  reads_8 :
      (rest : List ℕ)
      → arg < 2 ^ 64
      → read_head ((bit_or (major * 32 % 256) 27 ∷ be64 arg) ++ rest) ≡ some (major, arg, rest)
  unfolding read_arg
  reads_8 rest h = read_initial major 27 (be64 arg ++ rest) hm (omega arith) ∙ ground arith

  -- A head that is written is read back, whatever follows it, for a major type of three bits and
  -- an argument of 64.
  pub read_head-encode_head :
      (rest : List ℕ)
      → arg < 2 ^ 64
      → read_head (encode_head major arg ++ rest) ≡ some (major, arg, rest)
  unfolding encode_head
  read_head-encode_head rest ha =
      grind (arith, reads_small rest, reads_1 rest, reads_2 rest, reads_4 rest, reads_8 rest)

-- How many bytes follow the initial byte of the shortest head.
abbrev arg_bytes : ℕ → ℕ
arg_bytes arg =
    if ltb arg 24
    then 0
    else if ltb arg (2 ^ 8)
    then 1
    else if ltb arg (2 ^ 16)
    then 2
    else if ltb arg (2 ^ 32)
    then 4
    else 8

length-encode_head : (major arg : ℕ) → length (encode_head major arg) ≡ 1 + arg_bytes arg
unfolding encode_head
length-encode_head major arg = ground arith

module _ (major m arg : ℕ) (rest : List ℕ) where
  -- What a form reads is bounded by the bytes it spends.
  arg_1_bound :
      (bs : List ℕ)
      → All IsByte bs
      → arg_1 major bs ≡ some (m, arg, rest)
      → (arg < 2 ^ 8) × (length bs ≡ 1 + length rest)
  arg_1_bound bs hb e = ground arith

  arg_2_bound :
      (bs : List ℕ)
      → All IsByte bs
      → arg_2 major bs ≡ some (m, arg, rest)
      → (arg < 2 ^ 16) × (length bs ≡ 2 + length rest)
  arg_2_bound bs hb e = ground arith

  arg_4_bound :
      (bs : List ℕ)
      → All IsByte bs
      → arg_4 major bs ≡ some (m, arg, rest)
      → (arg < 2 ^ 32) × (length bs ≡ 4 + length rest)
  arg_4_bound bs hb e = ground arith

  arg_8_bound : (bs : List ℕ) → arg_8 major bs ≡ some (m, arg, rest) → length bs ≡ 8 + length rest
  arg_8_bound bs e = ground arith

  read_arg_bound :
      (info : ℕ) (bs : List ℕ)
      → All IsByte bs
      → read_arg major info bs ≡ some (m, arg, rest)
      → arg_bytes arg + length rest ≤ length bs
  unfolding read_arg
  read_arg_bound info bs hb e =
      grind (arith, arg_1_bound bs, arg_2_bound bs, arg_4_bound bs, arg_8_bound bs)

-- The head that is written is read back, and it is a shortest one: no bytes that a reader takes for the same major type and
-- argument before the same rest are fewer; for a major type of three bits and an argument of 64.
pub encode_head_shortest :
    (major arg : ℕ) (rest bs : List ℕ)
    → major < 8
    → arg < 2 ^ 64
    → All IsByte bs
    → read_head bs ≡ some (major, arg, rest)
    → (read_head (encode_head major arg ++ rest) ≡ some (major, arg, rest))
      × (length (encode_head major arg ++ rest) ≤ length bs)
unfolding read_head
encode_head_shortest major arg rest [] hm ha hb e = absurd (ground arith)
encode_head_shortest major arg rest (b ∷ bs) hm ha hb e = (
  read_head-encode_head major arg hm rest ha,
  omega (
    arith,
    length-append (encode_head major arg) rest,
    length-encode_head major arg,
    read_arg_bound (b / 32) major arg rest (b % 32) bs hb.1 e,
  ),
)
