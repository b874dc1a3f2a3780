-- ===== src/Media.antt =====
-- loomd/src/media/mod.rs and constraints.rs: a media thread, which encodes frames and sends their
-- datagrams until the connection closes.
-- A tick is one round of the thread's loop. What the round finds outside the thread is its input:
-- the connection, the two channels, the capture, the clock, the encoder, and how many datagrams
-- the connection takes. The pacing of the rounds is left out.
pub mod Injector
pub mod Numbering
pub mod Framing
mod Tests
use loom_host.Base.{ℕ, zero, suc, ◌+◌, ◌-◌, ◌*◌, ◌/◌, ◌%◌, ◌^◌, bit_xor, ltb, ◌==◌, if◌then◌else◌}
use loom_host.Base.{Bool, true, false, not, ◌&&◌, ◌||◌, Option, none, some, List, [], ◌∷◌, ◌++◌}
use loom_host.Base.Bytes.{be64}
use loom_host.Datagram.{fragment}
use loom_host.Session.{MediaParams}

pub record DropInjector : Type 0 where
  pub state : ℕ
  pub percent : ℕ

-- `DropInjector::new`
unfoldable pub injector : ℕ → DropInjector
injector percent = record { state = 0x9E3779B97F4A7C15; percent = percent }

-- xorshift64; `u64` shifts to the left lose the high bits.
unfoldable pub xorshift : ℕ → ℕ
xorshift x0 =
    let x1 = bit_xor x0 (x0 * 2 ^ 13 % 2 ^ 64) in
    let x2 = bit_xor x1 (x1 / 2 ^ 7) in bit_xor x2 (x2 * 2 ^ 17 % 2 ^ 64)

unfoldable pub should_drop : DropInjector → DropInjector × Bool
should_drop d =
    let x = xorshift d.state in
    if d.percent == 0 then (d, false) else (record d { state = x }, ltb (x % 100) d.percent)

pub record EncoderConfig : Type 0 where
  pub width : ℕ
  pub height : ℕ
  pub fps_num : ℕ
  pub fps_den : ℕ
  pub bitrate_kbps : ℕ
  pub bframes : ℕ
  pub max_ref : ℕ
  pub keyint_max : ℕ
  pub repeat_headers : Bool
  pub scenecut : Bool

-- `constraints::encoder_config`
unfoldable pub encoder_config : ℕ → ℕ → ℕ → ℕ → EncoderConfig
encoder_config width height fps bitrate_kbps = record {
  width = width;
  height = height;
  fps_num = fps;
  fps_den = 1;
  bitrate_kbps = bitrate_kbps;
  bframes = 0;
  max_ref = 1;
  keyint_max = 2 ^ 31 - 1;
  repeat_headers = true;
  scenecut = false;
}

-- The configuration for a stream's parameters, `as u32` each.
unfoldable pub config_of : MediaParams → EncoderConfig
config_of p =
    encoder_config (p.width % 2 ^ 32) (p.height % 2 ^ 32) (p.refresh % 2 ^ 32)
      (p.bitrate_kbps % 2 ^ 32)

-- What `encode_i420` gives: an access unit and its key flag, none yet, or an error.
pub data Encoded : Type 0 where
  access_unit : Bool → List ℕ → Encoded
  not_yet failed : Encoded

-- What a round finds. `filled` is the result of `capture.fill`, `takes` the datagrams that
-- `send_datagram` accepts before its first error.
pub record Tick : Type 0 where
  pub closed : Bool
  pub resizes : List MediaParams
  pub reopens : Bool
  pub idr_requests : ℕ
  pub filled : Bool
  pub capture_ts : ℕ
  pub encoded : Encoded
  pub takes : ℕ

-- The thread's variables. `captures` tells a capture from the test pattern, and `have` is true
-- once the capture has delivered a frame.
pub record MediaThread : Type 0 where
  pub stream_id : ℕ
  pub params : MediaParams
  pub frame_seq : ℕ
  pub drop_gen : DropInjector
  pub captures : Bool
  pub have : Bool

-- What the thread does, in order: it opens source and encoder, has a frame encoded, and sends the
-- datagrams of a frame.
pub data Action : Type 0 where
  open_encoder : EncoderConfig → Action
  encode : ℕ → Bool → Action
  frame_sent : ℕ → Bool → List (List ℕ) → Action

-- `try_iter().last()`
abbrev pub last : List MediaParams → Option MediaParams
last [] = none
last (p ∷ []) = some p
last (p ∷ q ∷ ps) = last (q ∷ ps)

-- The loop over a frame's datagrams: what is sent of them.
unfoldable pub send_loop : List (List ℕ) → ℕ → DropInjector → DropInjector × List (List ℕ)
send_loop [] takes d = (d, [])
send_loop (dg ∷ dgs) takes d = elim ((should_drop d).1) [
  | true ↦ send_loop dgs takes (should_drop d).0
  | false ↦ elim takes [
    | zero ↦ ((should_drop d).0, [])
    | suc left ↦ let (d', sent) = send_loop dgs left (should_drop d).0 in (d', dg ∷ sent)
  ]
]

-- The frame body: the capture time and the access unit.
unfoldable pub frame_body : ℕ → List ℕ → List ℕ
frame_body capture_ts data_ = be64 capture_ts ++ data_

-- `wrapping_add(1)`
abbrev pub next_seq : ℕ → ℕ
next_seq n = (n + 1) % 2 ^ 32

-- What `encode_i420` led to; `none` is the end of the thread.
unfoldable pub on_encoded : Tick → MediaThread → Option MediaThread × List Action
on_encoded t m = elim (t.encoded) [
  | access_unit keyframe data_ ↦
      let (d, sent) =
        send_loop (fragment m.stream_id m.frame_seq keyframe (frame_body t.capture_ts data_))
          t.takes m.drop_gen in
      (
        some (record m { drop_gen = d; frame_seq = next_seq m.frame_seq }),
        frame_sent m.frame_seq keyframe sent ∷ [],
      )
  | not_yet ↦ (some m, [])
  | failed ↦ (none, [])
]

-- The frame of this round, and its encoding. Only a capture reads `have`.
unfoldable pub produce : Bool → Tick → MediaThread → Option MediaThread × List Action
produce force_idr t m =
    let m' = record m { have = t.filled || m.have } in
    let (next, acts) = on_encoded t m' in
    if m.captures && not (t.filled || m.have)
    then (some m', [])
    else (next, encode m.frame_seq force_idr ∷ acts)

-- `reopen`: a new source, which has no frame yet, and a new encoder.
unfoldable pub reopen : MediaParams → MediaThread → MediaThread
reopen p m = record m { params = p; have = false }

-- One round of the loop.
unfoldable pub tick : Tick → MediaThread → Option MediaThread × List Action
tick t m = if t.closed then (none, []) else elim (last t.resizes) [
  | none ↦ produce (ltb 0 t.idr_requests) t m
  | some p ↦
      let (next, acts) = produce true t (reopen p m) in
      if t.reopens then (next, open_encoder (config_of p) ∷ acts) else (none, [])
]

-- The loop.
unfoldable pub run : List Tick → MediaThread → List Action
run [] m = []
run (t ∷ ts) m = elim ((tick t m).0) [ none ↦ (tick t m).1 | some m' ↦ (tick t m).1 ++ run ts m' ]

-- A thread that starts.
unfoldable pub start : ℕ → MediaParams → Bool → ℕ → MediaThread
start stream_id params captures drop_percent = record {
  stream_id = stream_id;
  params = params;
  frame_seq = 0;
  drop_gen = injector drop_percent;
  captures = captures;
  have = false;
}
