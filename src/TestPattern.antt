-- ===== src/TestPattern.antt =====
-- loomd/src/media/testpattern.rs: the synthetic source, which draws a moving pattern, the number of
-- the frame and a border into the planes of a frame. An index out of range is `none`. `u32`
-- arithmetic wraps.
pub mod Glyphs
pub mod Render
mod Tests
use loom_host.Base.{ℕ, zero, suc, ◌+◌, ◌-◌, ◌*◌, ◌/◌, ◌%◌, ◌^◌, ltb, ◌==◌, if◌then◌else◌, ◌&&◌}
use loom_host.Base.{Option, none, some, List, [], ◌∷◌, get_or, get_elem?, replicate}
use loom_host.Base.Grid.{or_panic, for_upto, put, put_both}
use loom_host.Base.Text.{digits}

-- The rows of each digit; bit 2 is the left pixel.
abbrev pub font : List (List ℕ)
font =
    (0b111 ∷ 0b101 ∷ 0b101 ∷ 0b101 ∷ 0b111 ∷ [])
    ∷ (0b010 ∷ 0b110 ∷ 0b010 ∷ 0b010 ∷ 0b111 ∷ [])
    ∷ (0b111 ∷ 0b001 ∷ 0b111 ∷ 0b100 ∷ 0b111 ∷ [])
    ∷ (0b111 ∷ 0b001 ∷ 0b111 ∷ 0b001 ∷ 0b111 ∷ [])
    ∷ (0b101 ∷ 0b101 ∷ 0b111 ∷ 0b001 ∷ 0b001 ∷ [])
    ∷ (0b111 ∷ 0b100 ∷ 0b111 ∷ 0b001 ∷ 0b111 ∷ [])
    ∷ (0b111 ∷ 0b100 ∷ 0b111 ∷ 0b101 ∷ 0b111 ∷ [])
    ∷ (0b111 ∷ 0b001 ∷ 0b001 ∷ 0b001 ∷ 0b001 ∷ [])
    ∷ (0b111 ∷ 0b101 ∷ 0b111 ∷ 0b101 ∷ 0b111 ∷ [])
    ∷ (0b111 ∷ 0b101 ∷ 0b111 ∷ 0b001 ∷ 0b111 ∷ [])
    ∷ []

abbrev pub glyph_scale : ℕ
glyph_scale = 8

abbrev pub margin : ℕ
margin = 8

pub record TestPattern : Type 0 where
  pub width : ℕ
  pub height : ℕ
  pub y : List ℕ
  pub u : List ℕ
  pub v : List ℕ

unfoldable pub new : ℕ → ℕ → TestPattern
new width height = record {
  width = width;
  height = height;
  y = replicate (width * height) 0;
  u = replicate (width / 2 * (height / 2)) 128;
  v = replicate (width / 2 * (height / 2)) 128;
}

-- `n.wrapping_mul(3)`
unfoldable pub shift_of : ℕ → ℕ
shift_of n = n * 3 % 2 ^ 32

-- The values of the three planes before the marks are drawn.
unfoldable pub gradient : ℕ → ℕ → ℕ → ℕ
gradient shift xx yy = (xx % 2 ^ 32 + yy % 2 ^ 32 + shift) % 2 ^ 32 % 256

unfoldable pub drift_u : ℕ → ℕ → ℕ
drift_u shift cx = (128 + (cx % 2 ^ 32 + shift) % 2 ^ 32 / 4) % 256

unfoldable pub drift_v : ℕ → ℕ → ℕ
drift_v shift cy = (128 + (cy % 2 ^ 32 + 2 ^ 32 - shift) % 2 ^ 32 / 4) % 256

-- The loops over the luma plane and over the two chroma planes.
unfoldable pub draw_gradient : ℕ → ℕ → ℕ → List ℕ → Option (List ℕ)
draw_gradient w h shift =
    for_upto h (λ yy. for_upto w (λ xx. put (yy * w + xx) (gradient shift xx yy)))

unfoldable pub draw_chroma : ℕ → ℕ → ℕ → List ℕ × List ℕ → Option (List ℕ × List ℕ)
draw_chroma cw ch shift =
    for_upto ch
      (λ cy. for_upto cw (λ cx. put_both (cy * cw + cx) (drift_u shift cx) (drift_v shift cy)))

-- White where the font's bit is set, and black elsewhere.
abbrev pub ink : ℕ → ℕ → ℕ
ink bits rx = if bits / 2 ^ (2 - rx) % 2 == 1 then 235 else 16

-- A pixel of a block, if it lies in the frame.
abbrev pub put_inside : ℕ → ℕ → ℕ → ℕ → ℕ → List ℕ → Option (List ℕ)
put_inside w h x y val buf = if ltb x w && ltb y h then put (y * w + x) val buf else some buf

unfoldable pub draw_glyph : ℕ → ℕ → ℕ → ℕ → ℕ → List ℕ → Option (List ℕ)
draw_glyph w h digit ox oy buf = or_panic (get_elem? font digit) (λ rows.
    for_upto 5
      (λ ry. for_upto 3 (λ rx. for_upto glyph_scale (λ dy. for_upto glyph_scale (λ dx.
        put_inside w h (ox + rx * glyph_scale + dx) (oy + ry * glyph_scale + dy)
          (ink (get_or rows ry 0) rx)))))
      buf)

-- The loop over the digits, from the digit `i` on.
unfoldable pub draw_digits : ℕ → ℕ → ℕ → List ℕ → List ℕ → Option (List ℕ)
draw_digits w h i [] buf = some buf
draw_digits w h i (d ∷ ds) buf =
    or_panic (draw_glyph w h d (margin + i * (3 * glyph_scale + glyph_scale)) margin buf)
      (draw_digits w h (i + 1) ds)

unfoldable pub draw_counter : ℕ → ℕ → ℕ → List ℕ → Option (List ℕ)
draw_counter w h n = draw_digits w h 0 (digits n)

abbrev pub border_of : ℕ → ℕ
border_of n = if n % 2 == 0 then 235 else 16

unfoldable pub draw_parity_border : ℕ → ℕ → ℕ → List ℕ → Option (List ℕ)
draw_parity_border w h n buf =
    let c = border_of n in
    or_panic (for_upto w (λ x b. or_panic (put x c b) (put ((h - 1) * w + x) c)) buf)
      (for_upto h (λ y b. or_panic (put (y * w) c b) (put (y * w + (w - 1)) c)))

unfoldable pub render : ℕ → TestPattern → Option TestPattern
render n p =
    let shift = shift_of n in
    or_panic (draw_gradient p.width p.height shift p.y) (λ y1.
      or_panic (draw_chroma (p.width / 2) (p.height / 2) shift (p.u, p.v)) (λ uv.
        or_panic (draw_counter p.width p.height n y1) (λ y2.
          or_panic (draw_parity_border p.width p.height n y2)
            (λ y3. some (record p { y = y3; u = uv.0; v = uv.1 })))))
