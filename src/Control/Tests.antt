-- ===== src/Control/Tests.antt =====
-- loom-proto/src/control.rs: the crate's own test cases, and the theorems at concrete inputs.
use loom_host.Base.{ℕ, ◌+◌, ◌≤◌, ◌≡◌, refl, arith, none, List, [], ◌∷◌, ◌++◌, length, ok, err}
use loom_host.Base.Int.{pos, as_u64}
use loom_host.Cbor.{
  encode_head, encode_int, encode_into, encode_items, encode_pairs, lex_le, sort_pairs, insert_pair,
  flatten_pairs, to_canonical,
}
use loom_host.Cbor.Values.{Entries, int, end, entry}
use loom_host.Cbor.Reads.{IsCanonical}
use loom_host.Cbor.Text.{IsNested, IsReadable}
use loom_host.Cbor.Crate.{plain_floats, plain_floats-FloatLaws, model_reader, model_reader-IsReader}
use loom_host.Control.{
  Decoded, message, protocol_violation, known_keys, max_frame_body, encode_frame, filter_body,
  decode_frame,
}
use loom_host.Control.Frames.{envelope, told, decode_frame-encode_frame}
use loom_host.Control.Accepted.{IsRegistered, frame_len, decode_frame_sound}

-- An over-limit length is rejected by the prefix alone.
over_limit : decode_frame (λ bs. none) (0 ∷ 1 ∷ 0 ∷ 1 ∷ []) ≡ err protocol_violation
unfolding decode_frame
over_limit = refl

-- A VIEWPORT with an unknown key 9.
abbrev odd_viewport : Entries
odd_viewport = entry (int (pos 0)) (int (pos 7)) (entry (int (pos 9)) (int (pos 8)) end)

abbrev viewport_read : Decoded
viewport_read = message 0x22 (entry (int (pos 0)) (int (pos 7)) end)

viewport_told : told 0x22 odd_viewport ≡ viewport_read
unfolding known_keys filter_body
viewport_told = refl

abbrev frame : List ℕ
frame = encode_frame plain_floats 0x22 odd_viewport

odd_viewport-IsCanonical : IsCanonical plain_floats (envelope 0x22 odd_viewport)
unfolding IsCanonical encode_pairs encode_into encode_int encode_head as_u64 lex_le
odd_viewport-IsCanonical = ground arith

odd_viewport-IsReadable : IsReadable (envelope 0x22 odd_viewport)
unfolding IsNested
odd_viewport-IsReadable = ground arith

odd_viewport_short :
    length (to_canonical plain_floats (envelope 0x22 odd_viewport)) ≤ max_frame_body
unfolding to_canonical encode_into encode_items encode_pairs encode_int encode_head as_u64 lex_le
    sort_pairs insert_pair flatten_pairs
odd_viewport_short = omega arith

decode_frame-encode_frame_example :
    decode_frame (model_reader plain_floats) (frame ++ (5 ∷ [])) ≡ ok (told 0x22 odd_viewport)
decode_frame-encode_frame_example =
    decode_frame-encode_frame (model_reader plain_floats) plain_floats
      (model_reader-IsReader plain_floats plain_floats-FloatLaws) 0x22 odd_viewport (5 ∷ [])
      odd_viewport-IsCanonical odd_viewport-IsReadable odd_viewport_short

decode_frame_sound_example :
    (frame_len (frame ++ (5 ∷ [])) ≤ max_frame_body)
    × (4 + frame_len (frame ++ (5 ∷ [])) ≤ length (frame ++ (5 ∷ [])))
    × IsRegistered (told 0x22 odd_viewport)
decode_frame_sound_example =
    decode_frame_sound (model_reader plain_floats) (frame ++ (5 ∷ [])) (told 0x22 odd_viewport)
      decode_frame-encode_frame_example
