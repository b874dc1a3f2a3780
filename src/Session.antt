-- ===== src/Session.antt =====
-- loomd/src/session.rs: the host's sans-io session state machine.
-- A message body is `Entries`; text is its ASCII bytes; `u64`, `u16` and `i64` values are numbers
-- and integers, with the casts of the source written out.
pub mod Body
pub mod Phases
pub mod Contract
pub mod Invariant
pub mod Steps
pub mod Trace
pub mod Viewport
pub mod Handshake
pub mod Wire
mod Tests
use loom_host.Base.{ℕ, suc, ◌+◌, ◌-◌, ◌*◌, ◌/◌, ◌%◌, ◌^◌, min, max, bit_and, ltb, leb, ◌==◌}
use loom_host.Base.{Bool, true, false, not, ◌&&◌, ◌||◌, if◌then◌else◌, is_empty}
use loom_host.Base.{Option, none, some, List, [], ◌∷◌, ◌++◌, map}
use loom_host.Base.Int.{ℤ, pos, negsuc, eqb_ℤ, as_u64, as_u16, as_i64}
use loom_host.Cbor.Values.{
  Value, Items, Entries, int, bytes, text, array, dict, bool, float, null, nil, cons, end, entry,
}
use loom_host.Control.{Decoded, message, ignored}
use loom_host.Control.Codes
use loom_host.Session.Body.{int_key, pair_elem, float_key, offers_codec, pair_of}

abbrev pub protocol_version : ℕ
protocol_version = 1

abbrev pub codec_hevc : ℕ
codec_hevc = 1

abbrev pub host_max_width : ℕ
host_max_width = 3840

abbrev pub host_max_height : ℕ
host_max_height = 2160

abbrev pub min_dim : ℕ
min_dim = 640

abbrev pub feature_multi_display : ℕ
feature_multi_display = 0b10

pub record MediaParams : Type 0 where
  pub codec : ℕ
  pub width : ℕ
  pub height : ℕ
  pub refresh : ℕ
  pub audio : ℕ
  pub bitrate_kbps : ℕ

-- `MediaParams::default`
abbrev pub default_params : MediaParams
default_params = record {
  codec = codec_hevc;
  width = 2560;
  height = 1440;
  refresh = 72;
  audio = 0;
  bitrate_kbps = 60000;
}

pub record StreamConfig : Type 0 where
  pub stream_id : ℕ
  pub params : MediaParams
  pub x : ℤ
  pub y : ℤ

-- `jitter_ms` is the bit pattern of its `f64`.
pub record StatsReport : Type 0 where
  pub frames_received : ℤ
  pub frames_dropped : ℤ
  pub datagrams : ℤ
  pub jitter_ms : ℕ
  pub decode_us : ℤ
  pub rtt_us : ℤ
  pub e2e_us : Option ℤ
  pub stream_id : ℕ

pub data Output : Type 0 where
  send : ℕ → Entries → Output
  start_media : Bool → Output
  request_idr : ℕ → Output
  reconfigure : MediaParams → Output
  clock_pong : ℤ → Output
  stats : StatsReport → Output
  close : ℕ → Output

pub data State : Type 0 where
  wait_hello wait_config_ack streaming closed : State

pub record HostSession : Type 0 where
  pub state : State
  pub host_name : List ℕ
  pub session_id : List ℕ
  pub params : MediaParams
  pub generation : ℕ
  pub client_max_width : ℕ
  pub client_max_height : ℕ
  pub pending_generation : Option ℕ
  pub extra_streams : List StreamConfig
  pub multi_active : Bool

unfoldable pub new : List ℕ → List ℕ → MediaParams → List StreamConfig → HostSession
new host_name session_id params extra_streams = record {
  state = wait_hello;
  host_name = host_name;
  session_id = session_id;
  params = params;
  generation = 0;
  client_max_width = params.width;
  client_max_height = params.height;
  pending_generation = none;
  extra_streams = extra_streams;
  multi_active = false;
}

-- `unwrap_or(0)`
abbrev pub or_zero : Option ℤ → ℤ
or_zero none = pos 0
or_zero (some i) = i

abbrev or_zero_bits : Option ℕ → ℕ
or_zero_bits none = 0
or_zero_bits (some v) = v

-- `map(|v| v as i64)`
abbrev map_i64 : Option ℤ → Option ℤ
map_i64 none = none
map_i64 (some v) = some (as_i64 v)

unfoldable pub from_body : Entries → StatsReport
from_body body = record {
  frames_received = as_i64 (or_zero (int_key body (pos 0)));
  frames_dropped = as_i64 (or_zero (int_key body (pos 1)));
  datagrams = as_i64 (or_zero (int_key body (pos 2)));
  jitter_ms = or_zero_bits (float_key body (pos 3));
  decode_us = as_i64 (or_zero (int_key body (pos 4)));
  rtt_us = as_i64 (or_zero (int_key body (pos 5)));
  e2e_us = map_i64 (int_key body (pos 6));
  stream_id = as_u16 (or_zero (int_key body (pos 7)));
}

-- `fatal`: ERROR, then the close with the same code.
unfoldable pub fatal : ℕ → List ℕ → HostSession → HostSession × List Output
fatal code detail s = (
  record s { state = closed },
  send Codes.error (entry (int (pos 0)) (int (pos code)) (entry (int (pos 1)) (text detail) end))
      ∷ close code
      ∷ [],
)

unfoldable pub protocol_violation : HostSession → HostSession × List Output
protocol_violation s = fatal Codes.violation (Codes.ascii "unexpected message for state") s

unfoldable pub welcome_body : HostSession → Entries
welcome_body s =
    let features =
      if s.multi_active then entry (int (pos 3)) (int (pos feature_multi_display)) end else end in
    entry (int (pos 0)) (int (pos protocol_version))
      (entry (int (pos 1)) (text s.host_name) (entry (int (pos 2)) (bytes s.session_id) features))

-- One descriptor of CONFIG key 6.
abbrev pub descriptor : StreamConfig → Value
descriptor c = dict (
    entry (int (pos 0)) (int (pos c.stream_id)) (
      entry (int (pos 1)) (pair_of (pos c.params.width) (pos c.params.height)) (
        entry (int (pos 2)) (int (pos c.params.refresh)) (
          entry (int (pos 3)) (int (pos c.params.bitrate_kbps))
            (entry (int (pos 4)) (pair_of c.x c.y) end)))))

abbrev pub descriptors : List StreamConfig → Items
descriptors [] = nil
descriptors (c ∷ cs) = cons (descriptor c) (descriptors cs)

unfoldable pub config_body : HostSession → Entries
config_body s =
    let extras =
      if s.multi_active
      then entry (int (pos 6)) (array (descriptors s.extra_streams)) end
      else end in
    entry (int (pos 0)) (int (pos s.generation)) (
      entry (int (pos 1)) (int (pos s.params.codec)) (
        entry (int (pos 2)) (pair_of (pos s.params.width) (pos s.params.height)) (
          entry (int (pos 3)) (int (pos s.params.refresh)) (
            entry (int (pos 4)) (int (pos s.params.audio))
              (entry (int (pos 5)) (int (pos s.params.bitrate_kbps)) extras)))))

-- `u64::clamp`, and `& !1`.
abbrev pub clamp : ℕ → ℕ → ℕ → ℕ
clamp lo hi x = if ltb x lo then lo else if ltb hi x then hi else x

abbrev pub even_down : ℕ → ℕ
even_down n = n / 2 * 2

unfoldable pub clamp_viewport : HostSession → ℕ → ℕ → ℕ × ℕ
clamp_viewport s w h =
    let max_w = min host_max_width s.client_max_width in
    let max_h = min host_max_height s.client_max_height in
    (
      even_down (clamp min_dim (max max_w min_dim) w),
      even_down (clamp min_dim (max max_h min_dim) h),
    )

abbrev pub is_some {ℓ} : {A : Type ℓ} → Option A → Bool
is_some none = false
is_some (some a) = true

-- The state that `on_viewport` leaves when it sends a new CONFIG.
unfoldable pub resized : ℕ × ℕ → HostSession → HostSession
resized size s =
    let next = (s.generation + 1) % 2 ^ 64 in
    record s {
      params = record (s.params) { width = size.0; height = size.1 };
      generation = next;
      pending_generation = some next;
    }

-- The part of `on_viewport` from the clamp on.
unfoldable pub resize : HostSession → ℕ → ℕ → HostSession × List Output
resize s rw rh =
    let size = clamp_viewport s rw rh in
    let s' = resized size s in
    if is_some s.pending_generation || (size.0 == s.params.width && size.1 == s.params.height)
    then (s, [])
    else (s', send Codes.config (config_body s') ∷ [])

unfoldable pub on_viewport : Entries → HostSession → HostSession × List Output
on_viewport body s = elim (pair_elem body (pos 0) 0) [
  | none ↦ (s, [])
  | some w ↦ elim (pair_elem body (pos 0) 1) [
    | none ↦ (s, [])
    | some h ↦ resize s (as_u64 w) (as_u64 h)
  ]
]

-- `matches!` of an integer against a number: `g == n as i128`.
abbrev pub is_number : Option ℤ → ℕ → Bool
is_number none n = false
is_number (some g) n = eqb_ℤ g (pos n)

unfoldable pub on_reconfig_ack : Entries → HostSession → HostSession × List Output
on_reconfig_ack body s = elim (s.pending_generation) [
  | none ↦ protocol_violation s
  | some pending ↦
      if is_number (int_key body (pos 0)) pending
      then (record s { pending_generation = none }, reconfigure s.params ∷ [])
      else protocol_violation s
]

unfoldable pub on_streaming : ℕ → Entries → HostSession → HostSession × List Output
on_streaming msg_type body s =
    if msg_type == Codes.idr_request
    then (s, request_idr (as_u16 (or_zero (int_key body (pos 1)))) ∷ [])
    else if msg_type == Codes.stats
    then (s, stats (from_body body) ∷ [])
    else if msg_type == Codes.viewport
    then on_viewport body s
    else if msg_type == Codes.config_ack
    then on_reconfig_ack body s
    else if msg_type == Codes.input
    then (s, [])
    else protocol_violation s

-- HELLO key 3, the client's decode ceiling; absent, the session keeps its own.
abbrev pub take_max : Entries → HostSession → HostSession
take_max body s = elim (pair_elem body (pos 3) 0) [
  | none ↦ s
  | some w ↦ elim (pair_elem body (pos 3) 1) [
    | none ↦ s
    | some h ↦ record s { client_max_width = as_u64 w; client_max_height = as_u64 h }
  ]
]

-- Whether multi-display is negotiated: HELLO key 5 bit 1, and displays to serve.
abbrev pub negotiates : Entries → HostSession → Bool
negotiates body s =
    let client_features = as_u64 (or_zero (int_key body (pos 5))) in
    not (bit_and client_features feature_multi_display == 0) && not (is_empty s.extra_streams)

-- The state that `on_hello` leaves once version and codec agree.
unfoldable pub greeted : Entries → HostSession → HostSession
greeted body s =
    let s1 = take_max body s in
    record s1 { multi_active = negotiates body s1; generation = 1; state = wait_config_ack }

unfoldable pub accept_hello : Entries → HostSession → HostSession × List Output
accept_hello body s =
    let s' = greeted body s in
    (s', send Codes.welcome (welcome_body s') ∷ send Codes.config (config_body s') ∷ [])

unfoldable pub on_hello : ℕ → Entries → HostSession → HostSession × List Output
on_hello msg_type body s =
    if not (msg_type == Codes.hello)
    then protocol_violation s
    else if not (is_number (int_key body (pos 0)) protocol_version)
    then fatal Codes.version_unsupported (Codes.ascii "unsupported protocol_version") s
    else if not (offers_codec body codec_hevc)
    then fatal Codes.no_common_codec (Codes.ascii "no common codec (host: HEVC)") s
    else accept_hello body s

unfoldable pub on_config_ack : ℕ → Entries → HostSession → HostSession × List Output
on_config_ack msg_type body s =
    if not (msg_type == Codes.config_ack)
    then protocol_violation s
    else if not (is_number (int_key body (pos 0)) s.generation)
    then protocol_violation s
    else (record s { state = streaming }, send Codes.start end ∷ start_media s.multi_active ∷ [])

-- The `match self.state` at the end of `on_frame`.
unfoldable pub dispatch : State → ℕ → Entries → HostSession → HostSession × List Output
dispatch wait_hello msg_type body s = on_hello msg_type body s
dispatch wait_config_ack msg_type body s = on_config_ack msg_type body s
dispatch streaming msg_type body s = on_streaming msg_type body s
dispatch closed msg_type body s = (s, [])

abbrev pub is_closed : State → Bool
is_closed closed = true
is_closed _ = false

unfoldable pub on_message : ℕ → Entries → HostSession → HostSession × List Output
on_message msg_type body s =
    if is_closed s.state
    then (s, [])
    else if msg_type == Codes.bye
    then (record s { state = closed }, close Codes.no_error ∷ [])
    else if msg_type == Codes.clock_ping
    then (s, clock_pong (as_i64 (or_zero (int_key body (pos 0)))) ∷ [])
    else dispatch s.state msg_type body s

unfoldable pub on_frame : Decoded → HostSession → HostSession × List Output
on_frame (message msg_type body) s = on_message msg_type body s
on_frame ignored s = (s, [])

-- The session over a list of decoded frames, with all that it asks of its driver.
unfoldable pub run : List Decoded → HostSession → HostSession × List Output
run [] s = (s, [])
run (d ∷ ds) s = let (s', out) = on_frame d s in let (s'', rest) = run ds s' in (s'', out ++ rest)
