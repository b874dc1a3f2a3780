-- ===== src/TestPattern/Tests.antt =====
-- loomd/src/media/testpattern.rs: small frames, and the theorems at concrete inputs.
use loom_host.Base.{◌≡◌, refl, arith, some, [], ◌∷◌, replicate}
use loom_host.Base.Text.{digits, digits_fuel}
use loom_host.TestPattern.{
  TestPattern, new, render, shift_of, gradient, drift_u, drift_v, draw_gradient, draw_chroma,
  draw_counter, draw_digits, draw_glyph, draw_parity_border,
}
use loom_host.TestPattern.Render.{IsSized, Rendered, render-Rendered, render-new, luma_of}

-- A frame of 4 by 4 that holds something else already.
abbrev used : TestPattern
used = record { width = 4; height = 4; y = replicate 16 7; u = replicate 4 9; v = replicate 4 9 }

used-IsSized : IsSized used
used-IsSized = record { luma = refl; blue = refl; red = refl }

-- Frame 1: a black border round the gradient, which starts at 3.
abbrev frame_one : TestPattern
frame_one = record {
  width = 4;
  height = 4;
  y = 16 ∷ 16 ∷ 16 ∷ 16 ∷ 16 ∷ 5 ∷ 6 ∷ 16 ∷ 16 ∷ 6 ∷ 7 ∷ 16 ∷ 16 ∷ 16 ∷ 16 ∷ 16 ∷ [];
  u = 128 ∷ 129 ∷ 128 ∷ 129 ∷ [];
  v = 127 ∷ 127 ∷ 127 ∷ 127 ∷ [];
}

frame_one_drawn : render 1 used ≡ some frame_one
unfolding render shift_of gradient drift_u drift_v draw_gradient draw_chroma draw_counter
    draw_digits draw_glyph draw_parity_border digits digits_fuel
frame_one_drawn = refl

render-Rendered_example : Rendered 1 used
render-Rendered_example = render-Rendered 1 used used-IsSized (omega arith) (omega arith)

render-new_case : render 1 used ≡ render 1 (new 4 4)
render-new_case = render-new 1 used used-IsSized (omega arith) (omega arith)

-- A pixel of the digit of frame 7 in a frame of 64 by 48, white and black.
lit : luma_of 64 48 7 8 8 ≡ 235
unfolding digits digits_fuel gradient shift_of
lit = refl

unlit : luma_of 64 48 7 8 16 ≡ 16
unfolding digits digits_fuel gradient shift_of
unlit = refl
