-- ===== src/Session/Wire.antt =====
-- loomd/src/session.rs with loom-proto/src/control.rs: the bodies that the session sends are
-- canonical, and a client that decodes their frames is told all of them.
use loom_host.Base.{
  ℕ, suc, subst, append-nil, ◌^◌, ◌<◌, ◌≤◌, ◌≡◌, refl, ap, ◌∙◌, arith, List, [], ◌∷◌, length, All,
  Option, ok,
}
use loom_host.Base.Int.{ℤ, pos, negsuc, as_u64}
use loom_host.Cbor.{
  FloatOps, to_canonical, encode_into, encode_pairs, encode_int, encode_head, lex_le,
}
use loom_host.Cbor.Values.{Value, count_items}
use loom_host.Cbor.Ciborium.{Ciborium}
use loom_host.Cbor.Reads.{IsCanonical, AllCanonical}
use loom_host.Cbor.Text.{IsNested, AllNested, IsReadable}
use loom_host.Cbor.Crate.{IsReader}
use loom_host.Control.{message, max_frame_body, encode_frame, decode_frame, known_keys, filter_body}
use loom_host.Control.Codes
use loom_host.Control.Frames.{envelope, told, decode_frame-encode_frame}
use loom_host.Session.{HostSession, MediaParams, StreamConfig, config_body, descriptors, descriptor}

-- What the types of the source say of the numbers in a session.
abbrev pub InRange : MediaParams → Type 0
InRange p =
    (p.codec < 2 ^ 64)
    × (p.width < 2 ^ 64)
    × (p.height < 2 ^ 64)
    × (p.refresh < 2 ^ 64)
    × (p.audio < 2 ^ 64)
    × (p.bitrate_kbps < 2 ^ 64)

abbrev pub IsI32 : ℤ → Type 0
IsI32 (pos n) = n < 2 ^ 31
IsI32 (negsuc n) = n < 2 ^ 31

abbrev pub IsStream : StreamConfig → Type 0
IsStream c = (c.stream_id < 2 ^ 16) × InRange c.params × IsI32 c.x × IsI32 c.y

pub record IsSession (s : HostSession) : Type 0 where
  pub generation : s.generation < 2 ^ 64
  pub params : InRange s.params
  pub streams : All IsStream s.extra_streams
  pub displays : length s.extra_streams < 2 ^ 64

module _ (f : FloatOps) where
  i32-IsCanonical : (i : ℤ) → IsI32 i → IsCanonical f (Value.int i)
  unfolding IsCanonical
  i32-IsCanonical (pos n) h = omega arith
  i32-IsCanonical (negsuc n) h = omega arith

  descriptor-IsCanonical : (c : StreamConfig) → IsStream c → IsCanonical f (descriptor c)
  unfolding IsCanonical encode_pairs encode_into encode_int encode_head as_u64 lex_le
  descriptor-IsCanonical c (id, p, x, y) =
      let cx = i32-IsCanonical c.x x in let cy = i32-IsCanonical c.y y in ground arith

  count_descriptors : (cs : List StreamConfig) → count_items (descriptors cs) ≡ length cs
  count_descriptors [] = refl
  count_descriptors (c ∷ cs) = ap suc (count_descriptors cs)

  descriptors-AllCanonical :
      (cs : List StreamConfig) → All IsStream cs → AllCanonical f (descriptors cs)
  unfolding IsCanonical
  descriptors-AllCanonical [] h = tt
  descriptors-AllCanonical (c ∷ cs) (h, hs) =
      (descriptor-IsCanonical c h, descriptors-AllCanonical cs hs)

  config_body-IsCanonical :
      (s : HostSession) → IsSession s → IsCanonical f (envelope Codes.config (config_body s))
  unfolding IsCanonical config_body encode_pairs encode_into encode_int encode_head as_u64 lex_le
  config_body-IsCanonical s h =
      let g = h.generation in
      let p = h.params in
      let all = descriptors-AllCanonical s.extra_streams h.streams in
      let n = count_descriptors s.extra_streams in let d = h.displays in ground arith

  descriptors-AllNested : (cs : List StreamConfig) → AllNested 253 (descriptors cs)
  unfolding IsNested
  descriptors-AllNested [] = tt
  descriptors-AllNested (c ∷ cs) = (ground arith, descriptors-AllNested cs)

  config_body-IsReadable : (s : HostSession) → IsReadable (envelope Codes.config (config_body s))
  unfolding IsNested config_body
  config_body-IsReadable s = let all = descriptors-AllNested s.extra_streams in ground arith

  config_keys :
      (s : HostSession) → told Codes.config (config_body s) ≡ message Codes.config (config_body s)
  unfolding known_keys config_body filter_body
  config_keys s = ground arith

  module _ (from_reader : List ℕ → Option Ciborium) (crate : IsReader f from_reader) where
    -- A client that decodes the CONFIG frame of a session, over a reader of CBOR, is told the very
    -- body that the session sent, every key of it; if the session's numbers have the width of
    -- their types and the body is at most 65536 bytes long.
    pub decode_frame-config_body :
        (s : HostSession)
        → IsSession s
        → length (to_canonical f (envelope Codes.config (config_body s))) ≤ max_frame_body
        → decode_frame from_reader (encode_frame f Codes.config (config_body s))
          ≡ ok (message Codes.config (config_body s))
    decode_frame-config_body s h short =
        subst (λ bytes. decode_frame from_reader bytes ≡ ok (told Codes.config (config_body s)))
          (append-nil (encode_frame f Codes.config (config_body s)))
          (decode_frame-encode_frame from_reader f crate Codes.config (config_body s) []
            (config_body-IsCanonical s h) (config_body-IsReadable s) short)
        ∙ ap ok (config_keys s)
