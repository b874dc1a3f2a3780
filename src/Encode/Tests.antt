-- ===== src/Encode/Tests.antt =====
-- loom-encode/src/videotoolbox.rs: small frames, and the theorem at a concrete input.
use loom_host.Base.{◌≡◌, refl, arith, true, none, some, [], ◌∷◌, ok, err}
use loom_host.Base.Int.{pos, negsuc}
use loom_host.AnnexB.{prefix_loop}
use loom_host.AnnexB.Units.{unit, done}
use loom_host.Encode.{Format, Sample, video_toolbox, output_callback, callbacks, encode_i420}
use loom_host.Encode.Headers.{HoldsUnits, turn_of, empty_sink, led, encode_i420-led}

-- An IDR of two bytes behind a prefix of four, and one parameter set.
abbrev format : Format
format = record {
  status = pos 0;
  count = 1;
  nal_length_size = pos 4;
  set = λ index. (pos 0, some (0x40 ∷ []));
}

abbrev sample : Sample
sample = record { format = some format; block = some (pos 0, some (0 ∷ 0 ∷ 0 ∷ 2 ∷ 0x26 ∷ 1 ∷ [])) }

sample-HoldsUnits : HoldsUnits sample 4 ((0x40 ∷ []) ∷ []) ((0x26 ∷ 1 ∷ []) ∷ [])
unfolding prefix_loop
sample-HoldsUnits = record {
  format = format;
  described = refl;
  queried = refl;
  prefixes = refl;
  counted = refl;
  has_sets = (refl, tt);
  src = 0 ∷ 0 ∷ 0 ∷ 2 ∷ 0x26 ∷ 1 ∷ [];
  block = refl;
  units = unit (0 ∷ 0 ∷ 0 ∷ 2 ∷ []) (0x26 ∷ 1 ∷ []) refl refl (omega arith) done;
  bytes = ground arith;
}

encode_i420-led_example :
    encode_i420 (turn_of ((pos 0, some sample) ∷ [])) (empty_sink true)
    ≡ some (empty_sink true, ok (some (led true ((0x40 ∷ []) ∷ []) ((0x26 ∷ 1 ∷ []) ∷ []))))
encode_i420-led_example =
    encode_i420-led sample 4 ((0x40 ∷ []) ∷ []) ((0x26 ∷ 1 ∷ []) ∷ []) true sample-HoldsUnits

led_bytes :
    led true ((0x40 ∷ []) ∷ []) ((0x26 ∷ 1 ∷ []) ∷ [])
    ≡ record { keyframe = true; bytes = 0 ∷ 0 ∷ 0 ∷ 1 ∷ 0x40 ∷ 0 ∷ 0 ∷ 0 ∷ 1 ∷ 0x26 ∷ 1 ∷ [] }
led_bytes = refl

-- A failure of the encoder is returned in its frame's turn; a dropped frame returns nothing.
failed :
    encode_i420 (turn_of ((negsuc 4, none) ∷ [])) (empty_sink true)
    ≡ some (empty_sink true, err (video_toolbox (negsuc 4)))
unfolding encode_i420 callbacks output_callback
failed = refl

dropped :
    encode_i420 (turn_of ((pos 0, none) ∷ [])) (empty_sink true) ≡ some (empty_sink true, ok none)
unfolding encode_i420 callbacks output_callback
dropped = refl
