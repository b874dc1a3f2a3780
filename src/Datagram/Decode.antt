-- ===== src/Datagram/Decode.antt =====
-- loom-proto/src/datagram.rs: what `decode_with_streams` accepts, and why it drops.
use loom_host.Base.{ℕ, ◌+◌, ◌-◌, ◌^◌, ◌≤◌, ◌<◌, bit_and}
use loom_host.Base.{true, ◌≡◌, ◌≢◌, refl, arith}
use loom_host.Base.{List, ◌∷◌, length, get_or, set, drop, All, ok, err}
use loom_host.Base.Bytes.{IsByte, from_be16, from_be32, be16-from_be16, be32-from_be32}
use loom_host.Datagram.{
  DatagramHeader, DecodedDatagram, DropReason, flags, flag_keyframe, flag_last_fragment, contains,
  header_len, max_datagram_len, ◌!=◌, unknown_stream, check_fields, decode_with_streams, encode,
}
use loom_host.Datagram.RoundTrip.{IsHeader, Accepted}

-- The header that the fields of a datagram spell.
module _ (fl stream_id frame_seq frag_index frag_count : ℕ) where
  abbrev read_header : DatagramHeader
  read_header = record {
    keyframe = bit_and fl flag_keyframe != 0;
    last_fragment = bit_and fl flag_last_fragment != 0;
    stream_id = stream_id;
    frame_seq = frame_seq;
    frag_index = frag_index;
    frag_count = frag_count;
  }

  -- Accepting the fields means that they spell a well-formed header.
  check_fields_sound :
      (len : ℕ) (extra : List ℕ) {d : DecodedDatagram}
      → stream_id < 2 ^ 16
      → frame_seq < 2 ^ 32
      → frag_count < 2 ^ 16
      → check_fields len fl stream_id frame_seq frag_index frag_count extra ≡ ok d
      → IsHeader d.header
        × Accepted extra d.header.stream_id
        × (d.payload_len ≡ len - header_len)
        × (d.header ≡ read_header)
  unfolding check_fields
  check_fields_sound len extra hs hq hc e = ground arith

-- What acceptance promises of a datagram of bytes: its size is in bounds, its header is well
-- formed and on an accepted stream, the payload length is what follows the header, and encoding
-- that header before the payload gives the datagram back with the reserved flag bits cleared.
pub decode_with_streams_sound :
    (bytes extra : List ℕ) {d : DecodedDatagram}
    → All IsByte bytes
    → decode_with_streams bytes extra ≡ ok d
    → (header_len ≤ length bytes)
      × (length bytes ≤ max_datagram_len)
      × IsHeader d.header
      × Accepted extra d.header.stream_id
      × (d.payload_len ≡ length bytes - header_len)
      × (set bytes 1 (flags d.header) ≡ encode d.header (drop header_len bytes))
unfolding decode_with_streams encode
decode_with_streams_sound (b0 ∷ b1 ∷ b2 ∷ b3 ∷ b4 ∷ b5 ∷ b6 ∷ b7 ∷ b8 ∷ b9 ∷ b10 ∷ b11 ∷ p) extra
      {d} bs e =
    ground (
      arith,
      be16-from_be16 b2 b3,
      be16-from_be16 b8 b9,
      be16-from_be16 b10 b11,
      be32-from_be32 b4 b5 b6 b7,
      check_fields_sound b1 (from_be16 b2 b3) (from_be32 b4 b5 b6 b7) (from_be16 b8 b9)
          (from_be16 b10 b11) (12 + length p) extra {d = d},
    )
decode_with_streams_sound _ extra bs e = ground arith

-- The stream id that a datagram's bytes spell.
abbrev pub stream_of : List ℕ → ℕ
stream_of bytes = from_be16 (get_or bytes 2 0) (get_or bytes 3 0)

-- What those bytes say, if every check passes.
abbrev reading : List ℕ → DecodedDatagram
reading bytes =
    let b = get_or bytes in
    record {
      header =
          read_header (b 1 0) (stream_of bytes) (from_be32 (b 4 0) (b 5 0) (b 6 0) (b 7 0))
            (from_be16 (b 8 0) (b 9 0)) (from_be16 (b 10 0) (b 11 0));
      payload_len = length bytes - header_len;
    }

-- Negotiating more streams never loses a datagram: what decodes under one list of extra streams
-- decodes to the same under any list that also holds the datagram's own stream, if it was held.
pub decode_with_streams_mono :
    (bytes extra more : List ℕ) {d : DecodedDatagram}
    → (contains extra (stream_of bytes) ≡ true → contains more (stream_of bytes) ≡ true)
    → decode_with_streams bytes extra ≡ ok d
    → decode_with_streams bytes more ≡ ok d
unfolding decode_with_streams check_fields
decode_with_streams_mono bytes extra more sub e = ground arith

-- The stream test is the last one: a datagram dropped as an unknown stream names a stream other
-- than 0 and 1, and decodes, with that stream, once the stream is negotiated. Every other reason to
-- drop stands whatever is negotiated.
pub unknown_stream_is_last :
    (bytes extra : List ℕ)
    → (decode_with_streams bytes extra ≡ err unknown_stream
        → (2 ≤ stream_of bytes)
          × ((d : DecodedDatagram) × (decode_with_streams bytes (stream_of bytes ∷ extra) ≡ ok d)
              × (d.header.stream_id ≡ stream_of bytes)))
      × ((r : DropReason) (more : List ℕ)
          → r ≢ unknown_stream
          → decode_with_streams bytes extra ≡ err r
          → decode_with_streams bytes more ≡ err r)
unfolding decode_with_streams check_fields
unknown_stream_is_last bytes extra =
    ((λ e. (ground arith, (reading bytes, ground arith, refl))), λ r more ne e. ground arith)
