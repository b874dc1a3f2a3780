-- ===== src/Cbor/Reads.antt =====
-- loom-proto/src/cbor.rs: canonical values, and how a single one that holds no other reads back.
use loom_host.Base.{ℕ, suc, ◌/◌, ◌%◌, ◌^◌, ◌<◌, max, ltb}
use loom_host.Base.{◌≡◌, refl, ap, ap₂, ◌∙◌, arith, true, false, some}
use loom_host.Base.{
  List, [], ◌∷◌, ◌++◌, length, take-append, drop-append, length-append, append_assoc,
}
use loom_host.Base.Int.{ℤ, pos, negsuc, as_u64, ◌-ℤ◌}
use loom_host.Base.Bytes.{
  be16, be32, be64, from_be16, from_be32, from_be64, from_be16-be16, from_be32-be32,
}
use loom_host.Cbor.Values.{
  Value, Items, Entries, int, bytes, text, array, dict, bool, float, null, nil, cons, end, entry,
  count_items, count_entries,
}
use loom_host.Cbor.{
  FloatOps, Pair, encode_head, encode_int, encode_float, encode_into, encode_pairs, sort_pairs,
  insert_pair,
}
use loom_host.Cbor.Head.{read_head, read_head-encode_head, read_arg}
use loom_host.Cbor.Order.{IsSorted, Least}
use loom_host.Cbor.Reader.{read_value, read_body, read_items, read_entries, read_bytes, read_simple}

-- Sorting leaves sorted pairs as they are.
insert_pair_first : (p : Pair) (ps : List Pair) → Least p.0 ps → insert_pair p ps ≡ p ∷ ps
unfolding insert_pair
insert_pair_first p [] l = refl
insert_pair_first p (q ∷ ps) l = rw l

pub sort_pairs_sorted : (ps : List Pair) → IsSorted ps → sort_pairs ps ≡ ps
unfolding sort_pairs
sort_pairs_sorted [] h = refl
sort_pairs_sorted (p ∷ ps) (l, h) = rw (sort_pairs_sorted ps h) (insert_pair_first p ps l)

module _ (f : FloatOps) where
  open f use {is_nan, to_f32, from_f32, to_f16, from_f16, eq_f64, eq_f32}

  -- What IEEE 754 says of the casts: a narrowed float has the narrow width, and one that widens to
  -- an equal float widens to the same bits.
  pub record FloatLaws : Type 0 where
    pub f32_width : (v : ℕ) → to_f32 v < 2 ^ 32
    pub f16_width : (w : ℕ) → to_f16 w < 2 ^ 16
    pub f64_exact :
        (v : ℕ) → is_nan v ≡ false → eq_f64 (from_f32 (to_f32 v)) v ≡ true → from_f32 (to_f32 v) ≡ v
    pub f32_exact : (w : ℕ) → eq_f32 (from_f16 (to_f16 w)) w ≡ true → from_f16 (to_f16 w) ≡ w

  -- The values that CBOR can say in one way only: numbers and lengths of 64 bits, map entries in
  -- the order of their keys, and one NaN.
  unfoldable mutual
    pub IsCanonical : Value → Type 0
    IsCanonical (int (pos n)) = n < 2 ^ 64
    IsCanonical (int (negsuc n)) = n < 2 ^ 64
    IsCanonical (bytes b) = length b < 2 ^ 64
    IsCanonical (text s) = length s < 2 ^ 64
    IsCanonical (array a) = (count_items a < 2 ^ 64) × AllCanonical a
    IsCanonical (dict m) =
        (count_entries m < 2 ^ 64) × IsSorted (encode_pairs f m) × EveryCanonical m
    IsCanonical (bool b) = Unit
    IsCanonical (float v) = (v < 2 ^ 64) × (is_nan v ≡ true → v ≡ from_f32 (from_f16 0x7e00))
    IsCanonical null = Unit

    pub AllCanonical : Items → Type 0
    AllCanonical nil = Unit
    AllCanonical (cons v vs) = IsCanonical v × AllCanonical vs

    pub EveryCanonical : Entries → Type 0
    EveryCanonical end = Unit
    EveryCanonical (entry k v es) = IsCanonical k × IsCanonical v × EveryCanonical es

  -- Fuel that is enough to read a value.
  unfoldable mutual
    pub size : Value → ℕ
    size (array a) = suc (size_items a)
    size (dict m) = suc (size_entries m)
    size _ = 1

    pub size_items : Items → ℕ
    size_items nil = 0
    size_items (cons v vs) = suc (max (size v) (size_items vs))

    pub size_entries : Entries → ℕ
    size_entries end = 0
    size_entries (entry k v es) = suc (max (size k) (max (size v) (size_entries es)))

  -- A value is read by its head.
  pub by_head :
      (n major arg : ℕ) (xs rest : List ℕ)
      → major < 8
      → arg < 2 ^ 64
      → read_value f (suc n) (encode_head major arg ++ (xs ++ rest))
        ≡ read_body f
            (λ k r. read_items f n k r)
            (λ k r. read_entries f n k r)
            major
            arg
            (xs ++ rest)
            (encode_head major arg ++ (xs ++ rest))
  unfolding read_value
  by_head n major arg xs rest hm ha =
      rw (read_value, read_head-encode_head major arg hm (xs ++ rest) ha)

  encode_int_pos : (n : ℕ) → n < 2 ^ 64 → encode_int (pos n) ≡ encode_head 0 n
  unfolding encode_int as_u64
  encode_int_pos n h = ground arith

  encode_int_negsuc : (n : ℕ) → n < 2 ^ 64 → encode_int (negsuc n) ≡ encode_head 1 n
  unfolding encode_int as_u64 ◌-ℤ◌
  encode_int_negsuc n h = ground arith

  pub reads_int :
      (n : ℕ) (i : ℤ) (rest : List ℕ)
      → IsCanonical (int i)
      → read_value f (suc n) (encode_int i ++ rest) ≡ some (int i, rest)
  unfolding read_body IsCanonical
  reads_int n (pos i) rest h = rw (encode_int_pos i h) (by_head n 0 i [] rest (omega arith) h)
  reads_int n (negsuc i) rest h = rw (encode_int_negsuc i h) (by_head n 1 i [] rest (omega arith) h)

  reads_string : (b rest : List ℕ) → read_bytes (length b) (b ++ rest) ≡ some (b, rest)
  reads_string b rest =
      let long : ltb (length (b ++ rest)) (length b) ≡ false =
        ground (arith, length-append b rest) in
      rw long (ap₂ (λ x y. some (x, y)) (take-append b rest) (drop-append b rest))

  pub same_count : (n : ℕ) → n < 2 ^ 64 → n % 2 ^ 64 ≡ n
  same_count n h = omega arith

  pub reads_bytes :
      (n : ℕ) (b rest : List ℕ)
      → IsCanonical (bytes b)
      → read_value f (suc n) (encode_into f (bytes b) ++ rest) ≡ some (bytes b, rest)
  unfolding encode_into read_body IsCanonical
  reads_bytes n b rest h =
      rw (same_count (length b) h, append_assoc (encode_head 2 (length b)) b rest)
        (by_head n 2 (length b) b rest (omega arith) h ∙ rw (reads_string b rest))

  pub reads_text :
      (n : ℕ) (b rest : List ℕ)
      → IsCanonical (text b)
      → read_value f (suc n) (encode_into f (text b) ++ rest) ≡ some (text b, rest)
  unfolding encode_into read_body IsCanonical
  reads_text n b rest h =
      rw (same_count (length b) h, append_assoc (encode_head 3 (length b)) b rest)
        (by_head n 3 (length b) b rest (omega arith) h ∙ rw (reads_string b rest))

  -- A value of major type 7 is read by its initial byte.
  pub by_byte :
      (n b : ℕ) (bs rest : List ℕ) (a : ℕ)
      → read_head (b ∷ bs) ≡ some (7, a, rest)
      → read_value f (suc n) (b ∷ bs) ≡ read_simple f b bs
  unfolding read_body read_value read_simple
  by_byte n b bs rest a h = rw (read_value, h)

  reads_f16 :
      (n h : ℕ) (rest : List ℕ)
      → h < 2 ^ 16
      → read_value f (suc n) (0xf9 ∷ (be16 h ++ rest)) ≡ some (float (from_f32 (from_f16 h)), rest)
  unfolding read_simple read_head read_arg
  reads_f16 n h rest lt =
      by_byte n 0xf9 (be16 h ++ rest) rest (from_be16 (h / 256 % 256) (h % 256)) refl
      ∙ ap (λ x. some (float (from_f32 (from_f16 x)), rest)) (from_be16-be16 h lt)

  reads_f32 :
      (n w : ℕ) (rest : List ℕ)
      → w < 2 ^ 32
      → read_value f (suc n) (0xfa ∷ (be32 w ++ rest)) ≡ some (float (from_f32 w), rest)
  unfolding read_simple read_head read_arg
  reads_f32 n w rest lt =
      by_byte n 0xfa (be32 w ++ rest) rest
        (from_be32 (w / 2 ^ 24 % 256) (w / 2 ^ 16 % 256) (w / 256 % 256) (w % 256)) refl
      ∙ ap (λ x. some (float (from_f32 x), rest)) (from_be32-be32 w lt)

  reads_f64 :
      (n v : ℕ) (rest : List ℕ)
      → v < 2 ^ 64
      → read_value f (suc n) (0xfb ∷ (be64 v ++ rest)) ≡ some (float v, rest)
  unfolding read_simple read_head read_arg
  reads_f64 n v rest lt =
      by_byte n 0xfb (be64 v ++ rest) rest
        (from_be64 (v / 2 ^ 56 % 256) (v / 2 ^ 48 % 256) (v / 2 ^ 40 % 256) (v / 2 ^ 32 % 256)
          (v / 2 ^ 24 % 256) (v / 2 ^ 16 % 256) (v / 256 % 256) (v % 256))
        refl
      ∙ ap (λ x. some (float x, rest)) (omega arith)

  pub reads_float :
      (n v : ℕ) (rest : List ℕ)
      → FloatLaws
      → IsCanonical (float v)
      → read_value f (suc n) (encode_float f v ++ rest) ≡ some (float v, rest)
  unfolding encode_float IsCanonical
  reads_float n v rest laws (h, nan) = grind (
    arith,
    reads_f16 n (to_f16 (to_f32 v)) rest (laws.f16_width (to_f32 v)),
    reads_f16 n 0x7e00 rest,
    reads_f32 n (to_f32 v) rest (laws.f32_width v),
    reads_f64 n v rest h,
    laws.f64_exact v,
    laws.f32_exact (to_f32 v),
  )
