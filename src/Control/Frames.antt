-- ===== src/Control/Frames.antt =====
-- loom-proto/src/control.rs: a frame that is encoded decodes to its own message.
use loom_host.Base.{ℕ, suc, ◌+◌, ◌/◌, ◌%◌, ◌^◌, ◌≤◌, ◌<◌, ltb, leb, true, false}
use loom_host.Base.{◌≡◌, refl, ap, ◌∙◌, arith, Option, none, some, List, ◌∷◌, ◌++◌, length}
use loom_host.Base.{inl, inr, Option-cases, take-append, length-append, ok}
use loom_host.Base.Int.{pos, as_u64}
use loom_host.Base.Bytes.{from_be32, from_be32-be32}
use loom_host.Cbor.{FloatOps, to_canonical}
use loom_host.Cbor.Values.{Value, Entries, int, dict, array, nil, cons, as_int, as_map, as_array}
use loom_host.Cbor.Ciborium.{Ciborium, decode}
use loom_host.Cbor.Reads.{IsCanonical}
use loom_host.Cbor.Text.{IsReadable}
use loom_host.Cbor.Crate.{IsReader}
use loom_host.Control.{
  Decoded, message, ignored, known_keys, max_frame_body, encode_frame, filter_body, open_envelope,
  type_of, two_items, decode_frame,
}

-- The message `[type, body]`.
abbrev pub envelope : ℕ → Entries → Value
envelope t body = array (cons (int (pos t)) (cons (dict body) nil))

-- What a receiver is told of a message: nothing of a type that is not registered, and only the
-- keys that are defined for one that is.
abbrev pub told : ℕ → Entries → Decoded
told t body = elim (known_keys t) [
  | none ↦ ignored
  | some allowed ↦ message t (filter_body allowed body)
]

open_envelope_lem :
    (t : ℕ) (body : Entries) → t < 2 ^ 64 → open_envelope (envelope t body) ≡ ok (told t body)
unfolding open_envelope type_of two_items as_int as_map as_array as_u64
open_envelope_lem t body h =
    let same : t % 2 ^ 64 ≡ t = omega arith in
    let natural : leb 0 (t + 0) ≡ true = ground arith in
    rw (natural, same)
      (elim (Option-cases (known_keys t)) [
        | inl e ↦ rw (told, e) refl
        | inr (allowed, e) ↦ rw (told, e) (ap (λ x. ok (message x (filter_body allowed body))) same)
      ])

type_in_range :
    (f : FloatOps) (t : ℕ) (body : Entries) → IsCanonical f (envelope t body) → t < 2 ^ 64
unfolding IsCanonical
type_in_range f t body c = c.1.0

module _ (from_reader : List ℕ → Option Ciborium) where
  -- The body that a length prefix announces.
  announced :
      (a b c d : ℕ) (cbor rest : List ℕ) (v : Value)
      → from_be32 a b c d ≡ length cbor
      → length cbor ≤ max_frame_body
      → decode from_reader cbor ≡ some v
      → decode_frame from_reader (a ∷ b ∷ c ∷ d ∷ (cbor ++ rest)) ≡ open_envelope v
  unfolding decode_frame
  announced a b c d cbor rest v n h e =
      let total = length-append cbor rest in
      let header : ltb (suc (suc (suc (suc (length (cbor ++ rest)))))) 4 ≡ false = ground arith in
      let fits : ltb max_frame_body (length cbor) ≡ false = ground arith in
      let whole : ltb (suc (suc (suc (suc (length (cbor ++ rest)))))) (4 + length cbor) ≡ false =
        ground (arith, total) in
      rw (header, n, fits, whole, take-append cbor rest, e) refl

  module _ (f : FloatOps) (crate : IsReader f from_reader) where
    pub decode_frame-encode_frame :
        (t : ℕ) (body : Entries) (rest : List ℕ)
        → IsCanonical f (envelope t body)
        → IsReadable (envelope t body)
        → length (to_canonical f (envelope t body)) ≤ max_frame_body
        → decode_frame from_reader (encode_frame f t body ++ rest) ≡ ok (told t body)
    unfolding encode_frame
    decode_frame-encode_frame t body rest c readable h =
        let cbor = to_canonical f (envelope t body) in
        let n : length cbor % 2 ^ 32 ≡ length cbor = omega arith in
        rw n (
          announced (length cbor / 2 ^ 24 % 256) (length cbor / 2 ^ 16 % 256)
            (length cbor / 256 % 256) (length cbor % 256) cbor rest (envelope t body)
            (from_be32-be32 (length cbor) (omega arith)) h
            (crate.reads (envelope t body) c readable)
          ∙ open_envelope_lem t body (type_in_range f t body c))
