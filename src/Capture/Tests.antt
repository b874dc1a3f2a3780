-- ===== src/Capture/Tests.antt =====
-- loom-capture/src: small frames and short runs, and the theorems at concrete inputs.
use mathlib.Core.Option.{some-injective}
use loom_host.Base.{
  ℕ, subst, ◌≤◌, ◌≡◌, refl, arith, true, false, none, some, List, [], ◌∷◌, ◌++◌, replicate,
}
use loom_host.Base.{All, length, ok}
use loom_host.Base.Int.{pos, ◌+ℤ◌}
use loom_host.Capture.{
  I420Buffer, new, planes, y_len, uv_len, bgrx, to_i420, luma, chroma_u, chroma_v, luma_plane,
  luma_row, pixel, colour, block_sum, chroma_planes,
}
use loom_host.Capture.Frames.{new-IsFrame}
use loom_host.Capture.Convert.{Holds, Converts, to_i420-Converts}
use loom_host.Capture.Nv12.{
  split_nv12, luma_rows, copy_row, row_of, chroma_rows, chroma_row, Deinterleaves,
  split_nv12-Deinterleaves,
}
use loom_host.Capture.Stream.{
  setup_error, Loop, Parsers, video_bgrx, Chunk, Event, param_changed, process, timer, Setup, run,
  on_process,
}
use loom_host.Capture.Sound.{IsSound}
use loom_host.Capture.Publish.{on_process_short}
use loom_host.Capture.Runs.{newest_of, HoldsEvent, Captures, run-Captures}
use loom_host.Capture.Screen.{PixelBuffer, publish}
use loom_host.Capture.Samples.{IsWhole, Sample, BringsWhole, Delivered, deliver-Delivered}

-- White, of 2 by 2.
abbrev white : List ℕ
white = replicate 16 255

white_converts :
    to_i420 white 8 bgrx (new 2 2)
    ≡ some (record { width = 2; height = 2; pixels = 235 ∷ 235 ∷ 235 ∷ 235 ∷ 128 ∷ 128 ∷ [] })
unfolding to_i420 new planes y_len uv_len luma_plane luma_row pixel colour block_sum chroma_planes
    luma chroma_u chroma_v ◌+ℤ◌
white_converts = refl

-- A row of black and a row of white, both padded by 4 bytes.
padded_converts :
    to_i420 (replicate 12 0 ++ replicate 8 255) 12 bgrx (new 2 2)
    ≡ some (record { width = 2; height = 2; pixels = 16 ∷ 16 ∷ 235 ∷ 235 ∷ 128 ∷ 128 ∷ [] })
unfolding to_i420 new planes y_len uv_len luma_plane luma_row pixel colour block_sum chroma_planes
    luma chroma_u chroma_v ◌+ℤ◌
padded_converts = refl

-- The order of the bytes tells red from blue.
red_v : chroma_v (255, 0, 0) ≡ 240
unfolding chroma_v ◌+ℤ◌
red_v = refl

blue_v : chroma_v (0, 0, 255) ≡ 110
unfolding chroma_v ◌+ℤ◌
blue_v = refl

to_i420-Converts_example : Converts white 8 bgrx (new 2 2)
unfolding new
to_i420-Converts_example =
    to_i420-Converts white 8 bgrx (new 2 2) (new-IsFrame 2 2)
      (omega arith, omega arith, omega arith) (omega arith)

-- Two planes, both padded.
abbrev y_plane : List ℕ
y_plane = 1 ∷ 2 ∷ 3 ∷ 4 ∷ 0 ∷ 0 ∷ 5 ∷ 6 ∷ 7 ∷ 8 ∷ 0 ∷ 0 ∷ []

abbrev uv_plane : List ℕ
uv_plane = 10 ∷ 20 ∷ 11 ∷ 21 ∷ 0 ∷ []

nv12_splits :
    split_nv12 y_plane 6 uv_plane 5 (new 4 2)
    ≡ some (record {
      width = 4;
      height = 2;
      pixels = 1 ∷ 2 ∷ 3 ∷ 4 ∷ 5 ∷ 6 ∷ 7 ∷ 8 ∷ 10 ∷ 11 ∷ 20 ∷ 21 ∷ [];
    })
unfolding split_nv12 new planes y_len uv_len luma_rows copy_row row_of chroma_rows chroma_row
nv12_splits = refl

split_nv12-Deinterleaves_example : Deinterleaves y_plane 6 uv_plane 5 (new 4 2)
unfolding new
split_nv12-Deinterleaves_example =
    split_nv12-Deinterleaves y_plane 6 uv_plane 5 (new 4 2) (new-IsFrame 4 2) (omega arith)
      (omega arith)

-- Parsers that take every pod for a format of 2 by 2.
abbrev parsers : Parsers Unit
parsers = record {
  format_id = 4;
  media = λ pod. some (true, true);
  video = λ pod. ok (record { format = video_bgrx; width = 2; height = 2 });
}

abbrev no_failure : Setup
no_failure = record {
  mainloop = none;
  context = none;
  core = none;
  stream = none;
  listener = none;
  pod = none;
  connection = none;
}

abbrev white_chunk : Chunk
white_chunk = record { stride = pos 8; offset = 0; bytes = some white }

abbrev events : List (Event Unit)
events = param_changed 4 (some tt) ∷ process (some (white_chunk ∷ [])) ∷ timer true ∷ []

events_hold : All (HoldsEvent 2 2) events
events_hold = (
  tt,
  (
    λ bytes e passes.
        subst (λ b. (0 ≤ length b) × Holds b 8 2 2) (some-injective _ _ e)
          (omega arith, omega arith),
    (tt, tt),
  ),
)

run-Captures_example :
    Captures 2 2
      (newest_of parsers 2 2 events (setup_error no_failure))
      (run parsers no_failure (2, 2) events)
run-Captures_example =
    run-Captures parsers 2 2 (omega arith) (omega arith) no_failure events events_hold

-- The image that comes after the layout is the newest one.
white_newest : newest_of parsers 2 2 events (setup_error no_failure) ≡ some (white, 8, bgrx)
unfolding setup_error
white_newest = refl

-- The thread once the layout is known.
abbrev negotiated : Loop
negotiated = record {
  ud = record { expected = (2, 2); fmt = some bgrx; slot = none; spare = none; ready = false };
  sent = ok tt ∷ [];
  quits = false;
}

negotiated-IsSound : IsSound 2 2 negotiated
negotiated-IsSound = record {
  expected = refl;
  unsent = λ e. ground arith;
  once = λ e. (ok tt, refl);
  known = λ e. (bgrx, refl);
  layout = λ f e. ground arith;
  slot = λ f e. ground arith;
  spare = λ f e. ground arith;
}

-- A buffer of one row.
abbrev one_row : Chunk
one_row = record { stride = pos 8; offset = 0; bytes = some (replicate 8 0) }

on_process_short_example : on_process (some (one_row ∷ [])) negotiated ≡ none
on_process_short_example =
    on_process_short 2 2 one_row [] (replicate 8 0) bgrx negotiated (omega arith) (omega arith)
      negotiated-IsSound refl refl refl (omega arith)

abbrev image : PixelBuffer
image = record {
  is_420v = true;
  locks = true;
  y = record { bytes = some y_plane; stride = 6 };
  uv = record { bytes = some uv_plane; stride = 5 };
}

-- An image that fails to lock, and has no addresses.
abbrev locked_out : PixelBuffer
locked_out = record {
  is_420v = true;
  locks = false;
  y = record { bytes = none; stride = 0 };
  uv = record { bytes = none; stride = 0 };
}

abbrev samples : List Sample
samples =
    (true, none) ∷ (true, some image) ∷ (true, some locked_out) ∷ (false, some locked_out) ∷ []

image-IsWhole : IsWhole 4 2 image
image-IsWhole = record {
  y = y_plane;
  uv = uv_plane;
  has_y = refl;
  has_uv = refl;
  rows = omega arith;
  pairs = omega arith;
}

samples_whole : All (BringsWhole 4 2) samples
samples_whole = (tt, (image-IsWhole, (tt, (tt, tt))))

deliver-Delivered_example : Delivered 4 2 samples
deliver-Delivered_example = deliver-Delivered 4 2 samples samples_whole

-- An image without an address, after two frames: the older one comes back.
abbrev newer_frame : I420Buffer
newer_frame = record { width = 2; height = 2; pixels = replicate 6 1 }

abbrev older_frame : I420Buffer
older_frame = record { width = 2; height = 2; pixels = replicate 6 0 }

abbrev no_address : PixelBuffer
no_address = record image { y = record { bytes = none; stride = 6 } }

stale_shown :
    publish
      (some no_address)
      (record { size = (2, 2); slot = some newer_frame; spare = some older_frame })
    ≡ some (record { size = (2, 2); slot = some older_frame; spare = some newer_frame })
unfolding publish
stale_shown = refl
