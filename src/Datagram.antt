-- ===== src/Datagram.antt =====
-- loom-proto/src/datagram.rs: the 12-byte datagram header, its validation, and fragmentation.
-- A datagram is a list of bytes; `u16` and `u32` fields are numbers.
pub mod RoundTrip
pub mod Decode
pub mod Fragment
mod Tests
use loom_host.Base.{ℕ, zero, suc, ◌+◌, ◌-◌, ◌/◌, ◌%◌, ◌^◌, max, bit_and, bit_or, ltb, leb, ◌==◌}
use loom_host.Base.{Bool, true, false, not, ◌&&◌, ◌||◌, if◌then◌else◌}
use loom_host.Base.{List, [], ◌∷◌, ◌++◌, length, get_or, take, drop, any, Result, ok, err}
use loom_host.Base.Bytes.{be16, be32, from_be16, from_be32}

abbrev pub magic : ℕ
magic = 0x4c

abbrev pub flag_keyframe : ℕ
flag_keyframe = 0x01

abbrev pub flag_last_fragment : ℕ
flag_last_fragment = 0x02

abbrev pub header_len : ℕ
header_len = 12

abbrev pub max_datagram_len : ℕ
max_datagram_len = 1350

abbrev pub max_payload : ℕ
max_payload = max_datagram_len - header_len

pub record DatagramHeader : Type 0 where
  pub keyframe : Bool
  pub last_fragment : Bool
  pub stream_id : ℕ
  pub frame_seq : ℕ
  pub frag_index : ℕ
  pub frag_count : ℕ

-- `DatagramHeader::new`. The subtraction runs only at a count that is not zero.
unfoldable pub new : Bool → ℕ → ℕ → ℕ → ℕ → DatagramHeader
new keyframe stream_id frame_seq frag_index frag_count = record {
  keyframe = keyframe;
  last_fragment = ltb 0 frag_count && frag_index == frag_count - 1;
  stream_id = stream_id;
  frame_seq = frame_seq;
  frag_index = frag_index;
  frag_count = frag_count;
}

unfoldable pub flags : DatagramHeader → ℕ
flags h =
    let f = if h.keyframe then bit_or 0 flag_keyframe else 0 in
    if h.last_fragment then bit_or f flag_last_fragment else f

unfoldable pub to_bytes : DatagramHeader → List ℕ
to_bytes h =
    magic
    ∷ flags h
    ∷ (be16 h.stream_id ++ (be32 h.frame_seq ++ (be16 h.frag_index ++ be16 h.frag_count)))

unfoldable pub encode : DatagramHeader → List ℕ → List ℕ
unfolding to_bytes
encode h payload = to_bytes h ++ payload

-- `len.div_ceil(MAX_PAYLOAD)`
unfoldable pub div_ceil : ℕ → ℕ → ℕ
div_ceil n d = (n + d - 1) / d

-- The loop of `fragment` over `idx`, with the rounds left. `rest` is what the chunk iterator has
-- not yielded: an exhausted iterator stands for `unwrap_or(&[])`, which `take` gives of `[]`.
-- `idx as u16` and `frag_count as u16` keep the low 16 bits.
unfoldable pub fragment_loop : Bool → ℕ → ℕ → ℕ → ℕ → ℕ → List ℕ → List (List ℕ)
fragment_loop keyframe stream_id frame_seq frag_count zero idx rest = []
fragment_loop keyframe stream_id frame_seq frag_count (suc left) idx rest =
    encode (new keyframe stream_id frame_seq (idx % 2 ^ 16) (frag_count % 2 ^ 16))
      (take max_payload rest)
    ∷ fragment_loop keyframe stream_id frame_seq frag_count left (idx + 1) (drop max_payload rest)

-- How many datagrams a body takes.
unfoldable pub frag_count_of : List ℕ → ℕ
unfolding div_ceil
frag_count_of body = max (div_ceil (length body) max_payload) 1

unfoldable pub fragment : ℕ → ℕ → Bool → List ℕ → List (List ℕ)
fragment stream_id frame_seq keyframe body =
    let frag_count = frag_count_of body in
    fragment_loop keyframe stream_id frame_seq frag_count frag_count 0 body

pub data DropReason : Type 0 where
  too_short oversize bad_magic frag_count_zero frag_index_range : DropReason
  last_fragment_mismatch unknown_stream : DropReason

pub record DecodedDatagram : Type 0 where
  pub header : DatagramHeader
  pub payload_len : ℕ

-- `extra_video_streams.contains(&stream_id)`
abbrev pub contains : List ℕ → ℕ → Bool
contains xs a = any (λ x. x == a) xs

infix 50 ◌!=◌
abbrev pub ◌!=◌ : ℕ → ℕ → Bool
a != b = not (a == b)

abbrev same : Bool → Bool → Bool
same true b = b
same false b = not b

-- The part of `decode_with_streams` below the reads of the fields.
unfoldable pub check_fields : ℕ → ℕ → ℕ → ℕ → ℕ → ℕ → List ℕ → Result DecodedDatagram DropReason
check_fields len flags stream_id frame_seq frag_index frag_count extra =
    let last = bit_and flags flag_last_fragment != 0 in
    if ltb frag_count 1
    then err frag_count_zero
    else if leb frag_count frag_index
    then err frag_index_range
    else if not (same last (frag_index == frag_count - 1))
    then err last_fragment_mismatch
    else if stream_id != 0 && (stream_id != 1 && not (contains extra stream_id))
    then err unknown_stream
    else ok record {
      header = record {
        keyframe = bit_and flags flag_keyframe != 0;
        last_fragment = last;
        stream_id = stream_id;
        frame_seq = frame_seq;
        frag_index = frag_index;
        frag_count = frag_count;
      };
      payload_len = len - header_len;
    }

-- An index `bytes[i]` is read below `header_len` only, after the length test.
unfoldable pub decode_with_streams : List ℕ → List ℕ → Result DecodedDatagram DropReason
decode_with_streams bytes extra =
    let b = get_or bytes in
    if ltb (length bytes) header_len
    then err too_short
    else if ltb max_datagram_len (length bytes)
    then err oversize
    else if b 0 0 != magic
    then err bad_magic
    else check_fields (length bytes) (b 1 0) (from_be16 (b 2 0) (b 3 0))
        (from_be32 (b 4 0) (b 5 0) (b 6 0) (b 7 0)) (from_be16 (b 8 0) (b 9 0))
        (from_be16 (b 10 0) (b 11 0)) extra

unfoldable pub decode : List ℕ → Result DecodedDatagram DropReason
decode bytes = decode_with_streams bytes []
