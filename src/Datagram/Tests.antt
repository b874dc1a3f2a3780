-- ===== src/Datagram/Tests.antt =====
-- loom-proto/src/datagram.rs: the crate's own test cases, and the theorems at concrete inputs.
use loom_host.Base.{
  ℕ, ◌+◌, ◌-◌, ◌/◌, ◌≤◌, max, ◌≡◌, ◌≢◌, refl, inl, inr, true, false, arith, ok, err,
}
use loom_host.Base.{List, [], ◌∷◌, ◌++◌, length, set, drop, All, replicate}
use loom_host.Datagram.{
  DatagramHeader, DecodedDatagram, DropReason, new, flags, encode, fragment, frag_count_of, decode,
  decode_with_streams, check_fields, max_datagram_len, header_len, too_short, bad_magic,
  frag_count_zero, frag_index_range, last_fragment_mismatch, unknown_stream,
}
use loom_host.Datagram.RoundTrip.{IsHeader, Accepted, decode_with_streams-encode}
use loom_host.Datagram.Decode.{
  decode_with_streams_sound, decode_with_streams_mono, unknown_stream_is_last, stream_of,
}
use loom_host.Datagram.Fragment.{payloads, Carries, fragment-payloads, fragment-Carries}

-- `encode_single_fragment_keyframe`
encode_single :
    encode (new true 0 0 0 1) (0xaa ∷ [])
    ≡ 0x4c ∷ 3 ∷ 0 ∷ 0 ∷ 0 ∷ 0 ∷ 0 ∷ 0 ∷ 0 ∷ 0 ∷ 0 ∷ 1 ∷ 0xaa ∷ []
unfolding encode new flags
encode_single = refl

-- `decode_reasons`
abbrev head : ℕ → ℕ → ℕ → ℕ → ℕ → List ℕ
head m f s i c = m ∷ f ∷ 0 ∷ s ∷ 0 ∷ 0 ∷ 0 ∷ 0 ∷ 0 ∷ i ∷ 0 ∷ c ∷ []

decode_reasons :
    (decode (0x4c ∷ 3 ∷ 0 ∷ []) ≡ err too_short)
    × (decode (head 0x4d 2 0 0 1) ≡ err bad_magic)
    × (decode (head 0x4c 2 0 0 0) ≡ err frag_count_zero)
    × (decode (head 0x4c 2 0 3 3) ≡ err frag_index_range)
    × (decode (head 0x4c 0 0 2 3) ≡ err last_fragment_mismatch)
    × (decode (head 0x4c 2 0 0 3) ≡ err last_fragment_mismatch)
    × (decode (head 0x4c 2 9 0 1) ≡ err unknown_stream)
unfolding decode decode_with_streams check_fields
decode_reasons = (refl, refl, refl, refl, refl, refl, refl)

-- A keyframe of an extra display.
abbrev extra_key : DatagramHeader
extra_key = record {
  keyframe = true;
  last_fragment = true;
  stream_id = 2;
  frame_seq = 3;
  frag_index = 0;
  frag_count = 1;
}

extra_key-IsHeader : IsHeader extra_key
extra_key-IsHeader = ground arith

decode_with_streams-encode_example :
    decode_with_streams (encode extra_key (7 ∷ 8 ∷ [])) (2 ∷ 3 ∷ [])
    ≡ ok (record { header = extra_key; payload_len = 2 })
decode_with_streams-encode_example =
    decode_with_streams-encode extra_key (7 ∷ 8 ∷ []) (2 ∷ 3 ∷ []) extra_key-IsHeader
      (inr (inr refl)) (omega arith)

-- `decode_ignores_reserved_flag_bits`
abbrev all_flags : List ℕ
all_flags = head 0x4c 0xff 0 0 1 ++ (0xee ∷ [])

abbrev all_flags_read : DecodedDatagram
all_flags_read = record {
  header = record extra_key { stream_id = 0; frame_seq = 0 };
  payload_len = 1;
}

reserved_ignored : decode_with_streams all_flags [] ≡ ok all_flags_read
unfolding decode_with_streams check_fields
reserved_ignored = refl

decode_with_streams_sound_example :
    (header_len ≤ 13)
    × (13 ≤ max_datagram_len)
    × IsHeader all_flags_read.header
    × Accepted [] 0
    × ◌≡◌ {A = ℕ} 1 (13 - header_len)
    × (set all_flags 1 (flags all_flags_read.header)
        ≡ encode all_flags_read.header (drop header_len all_flags))
decode_with_streams_sound_example =
    decode_with_streams_sound all_flags [] (omega arith) reserved_ignored

decode_with_streams_mono_case : decode_with_streams all_flags (5 ∷ []) ≡ ok all_flags_read
decode_with_streams_mono_case =
    decode_with_streams_mono all_flags [] (5 ∷ []) (λ e. cc) reserved_ignored

unknown_stream_is_last_case :
    (decode_with_streams (head 0x4c 2 9 0 1) [] ≡ err unknown_stream
      → (2 ≤ stream_of (head 0x4c 2 9 0 1))
        × ((d : DecodedDatagram) × (decode_with_streams (head 0x4c 2 9 0 1) (9 ∷ []) ≡ ok d)
            × (d.header.stream_id ≡ stream_of (head 0x4c 2 9 0 1))))
    × ((r : DropReason) (more : List ℕ)
        → r ≢ unknown_stream
        → decode_with_streams (head 0x4c 2 9 0 1) [] ≡ err r
        → decode_with_streams (head 0x4c 2 9 0 1) more ≡ err r)
unknown_stream_is_last_case = unknown_stream_is_last (head 0x4c 2 9 0 1) []

abbrev small_body : List ℕ
small_body = 1 ∷ 2 ∷ 3 ∷ []

fragment-payloads_example :
    let ds = fragment 1 0 false small_body in
    (length ds ≡ max ((length small_body + 1337) / 1338) 1)
    × All (λ d. length d ≤ max_datagram_len) ds
    × (payloads ds ≡ small_body)
fragment-payloads_example = fragment-payloads 1 0 false small_body

-- A body of one full and one partial datagram.
abbrev long_body : List ℕ
long_body = replicate 1400 5

fragment-Carries_example :
    Carries true 0 9 (frag_count_of long_body) [] 0 (fragment 0 9 true long_body)
unfolding frag_count_of
fragment-Carries_example =
    fragment-Carries 0 9 true long_body [] (omega arith) (omega arith) (omega arith) (inl refl)
