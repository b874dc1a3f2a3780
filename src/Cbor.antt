-- ===== src/Cbor.antt =====
-- loom-proto/src/cbor.rs: the CBOR value model and its canonical encoder.
-- Bytes and UTF-8 text are lists of bytes; an `f64` is its 64-bit pattern, and the conversions
-- between float widths are a parameter. `encode_into` returns the bytes that it appends.
pub mod Values
pub mod Ciborium
pub mod Head
pub mod Order
pub mod Reader
pub mod Reads
pub mod Canonical
pub mod Text
pub mod Crate
mod Tests
use loom_host.Base.{ℕ, suc, ◌+◌, ◌-◌, ◌*◌, ◌%◌, ◌^◌, ◌<◌, bit_or, ltb, leb, ◌==◌, if◌then◌else◌}
use loom_host.Base.{Bool, true, false, not, ◌&&◌, ◌||◌, List, [], ◌∷◌, ◌++◌, length}
use loom_host.Base.Int.{ℤ, pos, negsuc, ◌-ℤ◌, leb_ℤ, as_u64}
use loom_host.Base.Bytes.{be16, be32, be64}
use loom_host.Cbor.Values.{
  Value, Items, Entries, int, bytes, text, array, dict, bool, float, null, nil, cons, end, entry,
  count_items, count_entries,
}

-- What the encoder asks of the float types: the casts `f64 as f32`, `f64::from(f32)`,
-- `f16::from_f32` and `f32::from(f16)` on bit patterns, and `==` on `f64` and `f32`.
pub record FloatOps : Type 0 where
  pub is_nan : ℕ → Bool
  pub to_f32 : ℕ → ℕ
  pub from_f32 : ℕ → ℕ
  pub to_f16 : ℕ → ℕ
  pub from_f16 : ℕ → ℕ
  pub eq_f64 : ℕ → ℕ → Bool
  pub eq_f32 : ℕ → ℕ → Bool

-- `major << 5` in a byte, and the argument in its shortest form.
unfoldable pub encode_head : ℕ → ℕ → List ℕ
encode_head major arg =
    let mt = major * 32 % 256 in
    if ltb arg 24
    then bit_or mt (arg % 256) ∷ []
    else if leb arg 0xff
    then bit_or mt 24 ∷ arg % 256 ∷ []
    else if leb arg 0xffff
    then bit_or mt 25 ∷ be16 (arg % 2 ^ 16)
    else if leb arg 0xffffffff
    then bit_or mt 26 ∷ be32 (arg % 2 ^ 32)
    else bit_or mt 27 ∷ be64 arg

unfoldable pub encode_int : ℤ → List ℕ
encode_int i =
    if leb_ℤ (pos 0) i then encode_head 0 (as_u64 i) else encode_head 1 (as_u64 (negsuc 0 -ℤ i))

-- `Ord` on byte vectors: `a ≤ b` in lexicographic order.
unfoldable pub lex_le : List ℕ → List ℕ → Bool
lex_le [] ys = true
lex_le (x ∷ xs) [] = false
lex_le (x ∷ xs) (y ∷ ys) = ltb x y || (x == y && lex_le xs ys)

abbrev pub Pair : Type 0
Pair = List ℕ × List ℕ

-- `sort_by` on the keys. It is stable: an element is put before those that are greater.
unfoldable pub insert_pair : Pair → List Pair → List Pair
insert_pair p [] = p ∷ []
insert_pair (k, v) ((j, w) ∷ ps) =
    if lex_le k j then (k, v) ∷ (j, w) ∷ ps else (j, w) ∷ insert_pair (k, v) ps

unfoldable pub sort_pairs : List Pair → List Pair
sort_pairs [] = []
sort_pairs (p ∷ ps) = insert_pair p (sort_pairs ps)

-- The keys and values one after another.
unfoldable pub flatten_pairs : List Pair → List ℕ
flatten_pairs [] = []
flatten_pairs ((k, v) ∷ ps) = k ++ (v ++ flatten_pairs ps)

module _ (f : FloatOps) where
  open f use {is_nan, to_f32, from_f32, to_f16, from_f16, eq_f64, eq_f32}

  unfoldable pub encode_float : ℕ → List ℕ
  encode_float v =
      let as_f32 = to_f32 v in
      let h = to_f16 as_f32 in
      if is_nan v
      then 0xf9 ∷ 0x7e ∷ 0x00 ∷ []
      else if eq_f64 (from_f32 as_f32) v
      then if eq_f32 (from_f16 h) as_f32 then 0xf9 ∷ be16 h else 0xfa ∷ be32 as_f32
      else 0xfb ∷ be64 v

  unfoldable mutual
    pub encode_into : Value → List ℕ
    encode_into (int i) = encode_int i
    encode_into (bytes b) = encode_head 2 (length b % 2 ^ 64) ++ b
    encode_into (text s) = encode_head 3 (length s % 2 ^ 64) ++ s
    encode_into (array a) = encode_head 4 (count_items a % 2 ^ 64) ++ encode_items a
    encode_into (dict m) =
        encode_head 5 (count_entries m % 2 ^ 64) ++ flatten_pairs (sort_pairs (encode_pairs m))
    encode_into (bool true) = 0xf5 ∷ []
    encode_into (bool false) = 0xf4 ∷ []
    encode_into (float v) = encode_float v
    encode_into null = 0xf6 ∷ []

    -- `for v in a { v.encode_into(out) }`
    pub encode_items : Items → List ℕ
    encode_items nil = []
    encode_items (cons v vs) = encode_into v ++ encode_items vs

    -- The encoded pairs that `encode_map` collects.
    pub encode_pairs : Entries → List Pair
    encode_pairs end = []
    encode_pairs (entry k v es) = (encode_into k, encode_into v) ∷ encode_pairs es

  unfoldable pub to_canonical : Value → List ℕ
  to_canonical v = encode_into v
