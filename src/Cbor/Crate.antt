-- ===== src/Cbor/Crate.antt =====
-- loom-proto/src/cbor.rs: what the program relies on of the ciborium crate's `from_reader`, and
-- a reader that has it.
use loom_host.Base.{ℕ, ◌+◌, ◌*◌, ◌%◌, ◌^◌, ◌≤◌, ◌≡◌, refl, ap, ap₂, arith, subst}
use loom_host.Base.{
  ◌==◌, true, false, Option, none, some, List, [], ◌++◌, length, length-append, append-nil,
}
use loom_host.Cbor.Values.{
  Value, Items, Entries, int, bytes, text, array, dict, bool, float, null, nil, cons, end, entry,
  count_items, count_entries,
}
use loom_host.Cbor.{
  FloatOps, encode_head, encode_int, encode_float, encode_into, encode_items, encode_pairs,
  flatten_pairs, to_canonical,
}
use loom_host.Cbor.Ciborium.{
  Ciborium, CiboriumItems, CiboriumEntries, c_integer, c_bytes, c_float, c_text, c_bool, c_null,
  c_array, c_map, c_nil, c_cons, c_end, c_entry, from_ciborium, from_items, from_entries, decode,
}
use loom_host.Cbor.Reader.{read_value}
use loom_host.Cbor.Reads.{
  FloatLaws, IsCanonical, AllCanonical, EveryCanonical, size, size_items, size_entries,
  sort_pairs_sorted,
}
use loom_host.Cbor.Text.{IsReadable}
use loom_host.Cbor.Canonical.{read_value-encode_into}

-- The crate reads valid CBOR back, canonical encodings among it, up to its recursion limit and with text in UTF-8.
pub record IsReader (f : FloatOps) (from_reader : List ℕ → Option Ciborium) : Type 0 where
  pub reads :
      (v : Value) → IsCanonical f v → IsReadable v → decode from_reader (to_canonical f v) ≡ some v

-- The crate's value for one of the program's.
unfoldable mutual
  pub to_ciborium : Value → Ciborium
  to_ciborium (int i) = c_integer i
  to_ciborium (bytes b) = c_bytes b
  to_ciborium (text s) = c_text s
  to_ciborium (array a) = c_array (to_items a)
  to_ciborium (dict m) = c_map (to_entries m)
  to_ciborium (bool b) = c_bool b
  to_ciborium (float v) = c_float v
  to_ciborium null = c_null

  pub to_items : Items → CiboriumItems
  to_items nil = c_nil
  to_items (cons v vs) = c_cons (to_ciborium v) (to_items vs)

  pub to_entries : Entries → CiboriumEntries
  to_entries end = c_end
  to_entries (entry k v es) = c_entry (to_ciborium k) (to_ciborium v) (to_entries es)

mutual
  unfolding to_ciborium from_ciborium

  from-to : (v : Value) → from_ciborium (to_ciborium v) ≡ v
  from-to (int i) = refl
  from-to (bytes b) = refl
  from-to (text s) = refl
  from-to (array a) = ap array (from-to_items a)
  from-to (dict m) = ap dict (from-to_entries m)
  from-to (bool b) = refl
  from-to (float v) = refl
  from-to null = refl

  from-to_items : (a : Items) → from_items (to_items a) ≡ a
  from-to_items nil = refl
  from-to_items (cons v vs) = ap₂ cons (from-to v) (from-to_items vs)

  from-to_entries : (m : Entries) → from_entries (to_entries m) ≡ m
  from-to_entries end = refl
  from-to_entries (entry k v es) = rw (from-to k, from-to v) (ap (entry k v) (from-to_entries es))

module _ (f : FloatOps) where
  head_size : (major arg : ℕ) → 1 ≤ length (encode_head major arg)
  unfolding encode_head
  head_size major arg = ground arith

  -- A head before `xs`.
  after_head : (major arg : ℕ) (xs : List ℕ) → 1 + length xs ≤ length (encode_head major arg ++ xs)
  after_head major arg xs =
      omega (arith, head_size major arg, length-append (encode_head major arg) xs)

  -- An encoding is at least half as long as the fuel that its value takes.
  mutual
    unfolding IsCanonical size encode_into encode_float encode_int flatten_pairs

    size_bound : (v : Value) → IsCanonical f v → size f v + 1 ≤ 2 * length (encode_into f v)
    size_bound (int i) c = grind (arith, head_size)
    size_bound (bytes b) c = omega (arith, after_head 2 (length b % 2 ^ 64) b)
    size_bound (text s) c = omega (arith, after_head 3 (length s % 2 ^ 64) s)
    size_bound (array a) c =
        omega (arith, items_bound a c.1, after_head 4 (count_items a % 2 ^ 64) (encode_items f a))
    size_bound (dict m) c = rw (sort_pairs_sorted (encode_pairs f m) c.1) (
        omega (
          arith,
          entries_bound m c.2,
          after_head 5 (count_entries m % 2 ^ 64) (flatten_pairs (encode_pairs f m)),
        ))
    size_bound (bool true) c = omega arith
    size_bound (bool false) c = omega arith
    size_bound (float v) c = ground arith
    size_bound null c = omega arith

    items_bound : (a : Items) → AllCanonical f a → size_items f a ≤ 2 * length (encode_items f a)
    items_bound nil c = omega arith
    items_bound (cons v vs) (c, cs) = omega (
      arith,
      size_bound v c,
      items_bound vs cs,
      length-append (encode_into f v) (encode_items f vs),
    )

    entries_bound :
        (m : Entries)
        → EveryCanonical f m
        → size_entries f m ≤ 2 * length (flatten_pairs (encode_pairs f m))
    entries_bound end c = omega arith
    entries_bound (entry k v es) (c, d, cs) =
        let xs = flatten_pairs (encode_pairs f es) in
        omega (
          arith,
          size_bound k c,
          size_bound v d,
          entries_bound es cs,
          length-append (encode_into f k) (encode_into f v ++ xs),
          length-append (encode_into f v) xs,
        )

  -- What the encoder writes of a canonical value is read back as that value, whatever follows it,
  -- with fuel for twice its length; if the float casts keep the laws of IEEE 754.
  pub read_value-to_canonical :
      (v : Value) (rest : List ℕ)
      → FloatLaws f
      → IsCanonical f v
      → read_value f (2 * length (to_canonical f v)) (to_canonical f v ++ rest) ≡ some (v, rest)
  unfolding to_canonical
  read_value-to_canonical v rest laws c =
      let fuel = 2 * length (encode_into f v) in
      read_value-encode_into f laws fuel v rest c (omega (arith, size_bound v c))

  -- A reader in the crate's place: it takes one value and leaves what follows it.
  abbrev pub raise : Option (Value × List ℕ) → Option Ciborium
  raise none = none
  raise (some (v, rest)) = some (to_ciborium v)

  unfoldable pub model_reader : List ℕ → Option Ciborium
  model_reader bs = raise (read_value f (2 * length bs) bs)

  pub model_reader-IsReader : FloatLaws f → IsReader f model_reader
  unfolding model_reader decode
  model_reader-IsReader laws = record {
    reads = λ v c readable.
        let bs = to_canonical f v in
        let read : read_value f (2 * length bs) bs ≡ some (v, []) =
          subst (λ xs. read_value f (2 * length bs) xs ≡ some (v, [])) (append-nil bs)
            (read_value-to_canonical v [] laws c) in
        rw (decode, read) (ap some (from-to v));
  }

-- Casts that keep the low bits, with equality of bit patterns: an instance of the laws.
abbrev pub plain_floats : FloatOps
plain_floats = record {
  is_nan = λ v. false;
  to_f32 = λ v. v % 2 ^ 32;
  from_f32 = λ w. w;
  to_f16 = λ w. w % 2 ^ 16;
  from_f16 = λ h. h;
  eq_f64 = λ a b. a == b;
  eq_f32 = λ a b. a == b;
}

pub plain_floats-FloatLaws : FloatLaws plain_floats
plain_floats-FloatLaws = record {
  f32_width = λ v. omega arith;
  f16_width = λ w. omega arith;
  f64_exact = λ v n e. ground arith;
  f32_exact = λ w e. ground arith;
}
