-- ===== src/Cbor/Tests.antt =====
-- loom-proto/src/cbor.rs: the crate's own test cases, and the theorems at concrete inputs.
use loom_host.Base.{ℕ, ◌*◌, ◌≤◌, ◌≡◌, ◌≢◌, refl, true, arith, some, List, [], ◌∷◌, ◌++◌, length}
use loom_host.Base.Int.{pos, negsuc, as_u64, ◌-ℤ◌}
use loom_host.Cbor.{
  FloatOps, encode_head, encode_int, encode_into, encode_pairs, lex_le, insert_pair, sort_pairs,
  flatten_pairs, to_canonical,
}
use loom_host.Cbor.Values.{
  Value, Entries, int, bytes, text, array, dict, bool, float, null, nil, cons, end, entry,
}
use loom_host.Cbor.Head.{read_head, read_arg, read_head-encode_head, encode_head_shortest}
use loom_host.Cbor.Order.{swap, to_canonical-Reorder}
use loom_host.Cbor.Reader.{read_value}
use loom_host.Cbor.Reads.{IsCanonical}
use loom_host.Cbor.Crate.{read_value-to_canonical, plain_floats, plain_floats-FloatLaws}

abbrev f : FloatOps
f = plain_floats

abbrev n : ℕ → Value
n k = int (pos k)

-- `shortest_form_ints`
ints :
    (to_canonical f (n 0) ≡ 0x00 ∷ [])
    × (to_canonical f (n 23) ≡ 0x17 ∷ [])
    × (to_canonical f (n 24) ≡ 0x18 ∷ 0x18 ∷ [])
    × (to_canonical f (n 256) ≡ 0x19 ∷ 0x01 ∷ 0x00 ∷ [])
    × (to_canonical f (n 65536) ≡ 0x1a ∷ 0x00 ∷ 0x01 ∷ 0x00 ∷ 0x00 ∷ [])
    × (to_canonical f (int (negsuc 0)) ≡ 0x20 ∷ [])
    × (to_canonical f (int (negsuc 499)) ≡ 0x39 ∷ 0x01 ∷ 0xf3 ∷ [])
unfolding to_canonical encode_into encode_int encode_head as_u64 ◌-ℤ◌
ints = (refl, refl, refl, refl, refl, refl, refl)

-- Keys that are given in another order.
abbrev shuffled : Entries
shuffled = entry (n 10) (n 1) (entry (n 2) (n 0) end)

abbrev in_order : Entries
in_order = entry (n 2) (n 0) (entry (n 10) (n 1) end)

map_keys_sorted : to_canonical f (dict shuffled) ≡ 0xa2 ∷ 0x02 ∷ 0x00 ∷ 0x0a ∷ 0x01 ∷ []
unfolding to_canonical encode_into encode_int encode_head as_u64 sort_pairs insert_pair lex_le
    flatten_pairs
map_keys_sorted = refl

keys_differ : encode_into f (n 10) ≢ encode_into f (n 2)
unfolding encode_into encode_int encode_head as_u64
keys_differ = λ e. ground arith

to_canonical-Reorder_case : to_canonical f (dict shuffled) ≡ to_canonical f (dict in_order)
to_canonical-Reorder_case = to_canonical-Reorder f (swap keys_differ)

read_head-encode_head_case : read_head (encode_head 4 500 ++ (0x80 ∷ [])) ≡ some (4, 500, 0x80 ∷ [])
read_head-encode_head_case = read_head-encode_head 4 500 (omega arith) (0x80 ∷ []) (omega arith)

encode_head_shortest_long_ten : read_head (0x18 ∷ 0x0a ∷ []) ≡ some (0, 10, [])
unfolding read_head read_arg
encode_head_shortest_long_ten = refl

-- 10 in two bytes is no shorter than in one.
encode_head_shortest_example :
    (read_head (encode_head 0 10 ++ []) ≡ some (0, 10, [])) × (length (encode_head 0 10 ++ []) ≤ 2)
encode_head_shortest_example =
    encode_head_shortest 0 10 [] (0x18 ∷ 0x0a ∷ []) (omega arith) (omega arith)
      (omega arith, (omega arith, tt)) encode_head_shortest_long_ten

-- The reading of a message with every kind of value.
abbrev sample : Value
sample = array (
    cons (n 33) (
      cons (dict in_order) (
        cons (text (0x6f ∷ 0x6b ∷ []))
          (cons (bytes (1 ∷ [])) (cons (bool true) (cons null (cons (float 0x4100) nil)))))))

sample-IsCanonical : IsCanonical f sample
unfolding IsCanonical encode_pairs encode_into encode_int encode_head as_u64 lex_le
sample-IsCanonical = ground arith

read_value-to_canonical_example :
    read_value f (2 * length (to_canonical f sample)) (to_canonical f sample ++ (9 ∷ []))
    ≡ some (sample, 9 ∷ [])
read_value-to_canonical_example =
    read_value-to_canonical f sample (9 ∷ []) plain_floats-FloatLaws sample-IsCanonical
