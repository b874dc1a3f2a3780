-- ===== src/Cbor/Canonical.antt =====
-- loom-proto/src/cbor.rs: what the encoder writes of a canonical value reads back.
use loom_host.Base.{ℕ, zero, suc, ◌%◌, ◌^◌, ◌≤◌, ◌<◌}
use loom_host.Base.{◌≡◌, refl, ◌∙◌, arith, true, false, some}
use loom_host.Base.{List, ◌∷◌, ◌++◌, append_assoc}
use loom_host.Cbor.Values.{
  Value, Items, Entries, int, bytes, text, array, dict, bool, float, null, nil, cons, end, entry,
  count_items, count_entries,
}
use loom_host.Cbor.{FloatOps, encode_head, encode_into, encode_items, encode_pairs, flatten_pairs}
use loom_host.Cbor.Head.{read_head, read_arg}
use loom_host.Cbor.Order.{IsSorted}
use loom_host.Cbor.Reader.{read_value, read_body, read_items, read_entries, read_simple}
use loom_host.Cbor.Reads.{
  FloatLaws, IsCanonical, AllCanonical, EveryCanonical, size, size_items, size_entries,
  sort_pairs_sorted, by_head, by_byte, reads_int, same_count, reads_bytes, reads_text, reads_float,
}

module _ (f : FloatOps) where
  -- One array or map from its parts.
  reads_array :
      (n : ℕ) (a : Items) (rest : List ℕ)
      → count_items a < 2 ^ 64
      → read_items f n (count_items a) (encode_items f a ++ rest) ≡ some (a, rest)
      → read_value f (suc n) (encode_into f (array a) ++ rest) ≡ some (array a, rest)
  unfolding encode_into read_body
  reads_array n a rest h e =
      rw
        (
          same_count f (count_items a) h,
          append_assoc (encode_head 4 (count_items a)) (encode_items f a) rest,
        )
        (by_head f n 4 (count_items a) (encode_items f a) rest (omega arith) h ∙ rw e)

  reads_dict :
      (n : ℕ) (m : Entries) (rest : List ℕ)
      → count_entries m < 2 ^ 64
      → IsSorted (encode_pairs f m)
      → read_entries f n (count_entries m) (flatten_pairs (encode_pairs f m) ++ rest)
        ≡ some (m, rest)
      → read_value f (suc n) (encode_into f (dict m) ++ rest) ≡ some (dict m, rest)
  unfolding encode_into read_body
  reads_dict n m rest h sorted e =
      let body = flatten_pairs (encode_pairs f m) in
      rw
        (
          same_count f (count_entries m) h,
          sort_pairs_sorted (encode_pairs f m) sorted,
          append_assoc (encode_head 5 (count_entries m)) body rest,
        )
        (by_head f n 5 (count_entries m) body rest (omega arith) h ∙ rw e)

  size_pos : (v : Value) → 1 ≤ size f v
  unfolding size
  size_pos v = ground arith

  -- The values of one byte.
  reads_byte :
      (n : ℕ) (v : Value) (b : ℕ) (rest : List ℕ)
      → read_head (b ∷ rest) ≡ some (7, b % 32, rest)
      → read_simple f b rest ≡ some (v, rest)
      → read_value f (suc n) (b ∷ rest) ≡ some (v, rest)
  reads_byte n v b rest e h = by_byte f n b rest rest (b % 32) e ∙ h

  -- One item, or one entry, and then the others.
  reads_cons :
      (n : ℕ) (v : Value) (vs : Items) (rest : List ℕ)
      → ((r : List ℕ) → read_value f n (encode_into f v ++ r) ≡ some (v, r))
      → read_items f n (count_items vs) (encode_items f vs ++ rest) ≡ some (vs, rest)
      → read_items f (suc n) (count_items (cons v vs)) (encode_items f (cons v vs) ++ rest)
        ≡ some (cons v vs, rest)
  unfolding encode_items read_items
  reads_cons n v vs rest first others = rw (
    append_assoc (encode_into f v) (encode_items f vs) rest,
    first (encode_items f vs ++ rest),
    others,
  )

  reads_entry :
      (n : ℕ) (k v : Value) (es : Entries) (rest : List ℕ)
      → ((r : List ℕ) → read_value f n (encode_into f k ++ r) ≡ some (k, r))
      → ((r : List ℕ) → read_value f n (encode_into f v ++ r) ≡ some (v, r))
      → read_entries f n (count_entries es) (flatten_pairs (encode_pairs f es) ++ rest)
        ≡ some (es, rest)
      → read_entries f
          (suc n)
          (count_entries (entry k v es))
          (flatten_pairs (encode_pairs f (entry k v es)) ++ rest)
        ≡ some (entry k v es, rest)
  unfolding encode_pairs read_entries flatten_pairs
  reads_entry n k v es rest key value others =
      let xs = flatten_pairs (encode_pairs f es) in
      rw (
        append_assoc (encode_into f k) (encode_into f v ++ xs) rest,
        append_assoc (encode_into f v) xs rest,
        key (encode_into f v ++ (xs ++ rest)),
        value (xs ++ rest),
        others,
      )

  module _ (laws : FloatLaws f) where
    mutual
      unfolding flatten_pairs IsCanonical size encode_into read_value read_simple read_head read_arg

      -- What the encoder writes of a canonical value is read back as that value, whatever follows
      -- it, with fuel for its size.
      pub read_value-encode_into :
          (n : ℕ) (v : Value) (rest : List ℕ)
          → IsCanonical f v
          → size f v ≤ n
          → read_value f n (encode_into f v ++ rest) ≡ some (v, rest)
      read_value-encode_into zero v rest c h = absurd (omega (arith, size_pos v))
      read_value-encode_into (suc n) (int i) rest c h = reads_int f n i rest c
      read_value-encode_into (suc n) (bytes b) rest c h = reads_bytes f n b rest c
      read_value-encode_into (suc n) (text s) rest c h = reads_text f n s rest c
      read_value-encode_into (suc n) (array a) rest c h =
          reads_array n a rest c.0 (reads_items n a rest c.1 (omega arith))
      read_value-encode_into (suc n) (dict m) rest c h =
          reads_dict n m rest c.0 c.1 (reads_entries n m rest c.2 (omega arith))
      read_value-encode_into (suc n) (bool true) rest c h =
          reads_byte n (bool true) 0xf5 rest refl refl
      read_value-encode_into (suc n) (bool false) rest c h =
          reads_byte n (bool false) 0xf4 rest refl refl
      read_value-encode_into (suc n) (float v) rest c h = reads_float f n v rest laws c
      read_value-encode_into (suc n) null rest c h = reads_byte n null 0xf6 rest refl refl

      reads_items :
          (n : ℕ) (a : Items) (rest : List ℕ)
          → AllCanonical f a
          → size_items f a ≤ n
          → read_items f n (count_items a) (encode_items f a ++ rest) ≡ some (a, rest)
      reads_items zero nil rest c h = refl
      reads_items (suc n) nil rest c h = refl
      reads_items zero (cons v vs) rest c h = absurd (omega arith)
      reads_items (suc n) (cons v vs) rest c h =
          reads_cons n v vs rest (λ r. read_value-encode_into n v r c.0 (omega arith))
            (reads_items n vs rest c.1 (omega arith))

      reads_entries :
          (n : ℕ) (m : Entries) (rest : List ℕ)
          → EveryCanonical f m
          → size_entries f m ≤ n
          → read_entries f n (count_entries m) (flatten_pairs (encode_pairs f m) ++ rest)
            ≡ some (m, rest)
      reads_entries zero end rest c h = refl
      reads_entries (suc n) end rest c h = refl
      reads_entries zero (entry k v es) rest c h = absurd (omega arith)
      reads_entries (suc n) (entry k v es) rest c h =
          reads_entry n k v es rest (λ r. read_value-encode_into n k r c.0 (omega arith))
            (λ r. read_value-encode_into n v r c.1 (omega arith))
            (reads_entries n es rest c.2 (omega arith))
