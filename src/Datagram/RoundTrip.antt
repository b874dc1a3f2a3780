-- ===== src/Datagram/RoundTrip.antt =====
-- loom-proto/src/datagram.rs: `encode` against `decode_with_streams`.
use loom_host.Base.{ℕ, ◌+◌, ◌-◌, ◌^◌, ◌≤◌, ◌<◌, bit_and, ◌==◌}
use loom_host.Base.{true, ◌≡◌, ◌⊎◌, arith}
use loom_host.Base.{List, length, ok}
use loom_host.Base.Bytes.{from_be16-be16, from_be32-be32}
use loom_host.Datagram.{
  DatagramHeader, flags, flag_keyframe, flag_last_fragment, max_payload, contains, ◌!=◌,
  check_fields, decode_with_streams, encode,
}

-- What a header must be to be sent: fields in their widths, a fragment inside its frame, and the
-- LAST_FRAGMENT flag where the fragment is the last.
pub record IsHeader (h : DatagramHeader) : Type 0 where
  pub stream_fits : h.stream_id < 2 ^ 16
  pub seq_fits : h.frame_seq < 2 ^ 32
  pub count_fits : h.frag_count < 2 ^ 16
  pub index_in : h.frag_index < h.frag_count
  pub last_exact : h.last_fragment ≡ (h.frag_index == h.frag_count - 1)

-- The streams that a receiver takes: primary video, audio, and the negotiated ones.
abbrev pub Accepted : List ℕ → ℕ → Type 0
Accepted extra s = (s ≡ 0) ⊎ (s ≡ 1) ⊎ (contains extra s ≡ true)

-- Both flags are read back from the byte that holds them.
flags_back :
    (h : DatagramHeader)
    → ((bit_and (flags h) flag_keyframe != 0) ≡ h.keyframe)
      × ((bit_and (flags h) flag_last_fragment != 0) ≡ h.last_fragment)
unfolding flags
flags_back h = ground arith

check_fields_accepts :
    (len : ℕ) (extra : List ℕ) (h : DatagramHeader)
    → IsHeader h
    → Accepted extra h.stream_id
    → check_fields len (flags h) h.stream_id h.frame_seq h.frag_index h.frag_count extra
      ≡ ok (record { header = h; payload_len = len - 12 })
unfolding check_fields
check_fields_accepts len extra h v a = ground (arith, flags_back h)

-- A well-formed header encoded before a payload of at most 1338 bytes decodes, on an accepted
-- stream, to that very header and the payload's length.
pub decode_with_streams-encode :
    (h : DatagramHeader) (payload extra : List ℕ)
    → IsHeader h
    → Accepted extra h.stream_id
    → length payload ≤ max_payload
    → decode_with_streams (encode h payload) extra
      ≡ ok (record { header = h; payload_len = length payload })
unfolding decode_with_streams encode
decode_with_streams-encode h payload extra v a fits = ground (
  arith,
  from_be16-be16 h.stream_id,
  from_be32-be32 h.frame_seq,
  from_be16-be16 h.frag_index,
  from_be16-be16 h.frag_count,
  check_fields_accepts (12 + length payload) extra h v a,
)
