-- ===== src/Capture.antt =====
-- loom-capture/src/frame.rs, convert.rs and nv12.rs: frames in planes, and the conversions from
-- packed RGB and from NV12. A slice or an index out of range is `none`. The `i32` arithmetic of the
-- colours stays in range.
pub mod Frames
pub mod Colour
pub mod Convert
pub mod Nv12
pub mod Failure
pub mod Stream
pub mod Sound
pub mod Publish
pub mod Watch
pub mod Runs
pub mod Screen
pub mod Samples
mod Tests
use loom_host.Base.{ℕ, zero, suc, ◌+◌, ◌-◌, ◌*◌, ◌/◌, ◌%◌, ◌^◌, ltb, leb, ◌==◌, if◌then◌else◌}
use loom_host.Base.{
  Option, none, some, List, [], ◌∷◌, ◌++◌, length, take, drop, get_elem?, replicate,
}
use loom_host.Base.Grid.{or_panic, for_upto, put, put_both}
use loom_host.Base.Int.{ℤ, pos, negsuc, sub_ℕ, ◌+ℤ◌}

pub record I420Buffer : Type 0 where
  pub width : ℕ
  pub height : ℕ
  pub pixels : List ℕ

-- `& !1`
abbrev even_down : ℕ → ℕ
even_down n = n / 2 * 2

unfoldable pub new : ℕ → ℕ → I420Buffer
new width height =
    let w = even_down width in
    let h = even_down height in
    record { width = w; height = h; pixels = replicate (w * h + 2 * (w / 2 * (h / 2))) 0 }

unfoldable pub y_len : I420Buffer → ℕ
y_len b = b.width * b.height

unfoldable pub uv_len : I420Buffer → ℕ
uv_len b = b.width / 2 * (b.height / 2)

-- `split_at`
abbrev pub split_at : ℕ → List ℕ → Option (List ℕ × List ℕ)
split_at mid xs = if leb mid (length xs) then some (take mid xs, drop mid xs) else none

abbrev pub Planes3 : Type 0
Planes3 = List ℕ × List ℕ × List ℕ

-- `planes` and `planes_mut`
unfoldable pub planes : I420Buffer → Option Planes3
planes b =
    or_panic (split_at (y_len b) b.pixels)
      (λ yr. or_panic (split_at (uv_len b) yr.1) (λ uv. some (yr.0, uv.0, uv.1)))

-- `as i32` of a `u32`
abbrev as_i32 : ℕ → ℤ
as_i32 n = if ltb n (2 ^ 31) then pos n else negsuc (2 ^ 32 - 1 - n)

unfoldable pub strides : I420Buffer → ℤ × ℤ × ℤ
strides b = (as_i32 b.width, as_i32 (b.width / 2), as_i32 (b.width / 2))

-- `copy_into`: the lengths must agree.
unfoldable pub copy_into : I420Buffer → I420Buffer → Option I420Buffer
copy_into src dst =
    if length src.pixels == length dst.pixels
    then some (record dst { pixels = src.pixels })
    else none

-- A frame whose planes were written.
abbrev pub with_planes : I420Buffer → Planes3 → I420Buffer
with_planes b (y, u, v) = record b { pixels = y ++ (u ++ v) }

pub record PixelFormat : Type 0 where
  pub r : ℕ
  pub g : ℕ
  pub b : ℕ

abbrev pub bgrx : PixelFormat
bgrx = record { r = 2; g = 1; b = 0 }

abbrev pub rgbx : PixelFormat
rgbx = record { r = 0; g = 1; b = 2 }

-- A colour, or a sum of colours.
abbrev pub Rgb : Type 0
Rgb = ℕ × ℕ × ℕ

unfoldable pub luma : Rgb → ℕ
luma (r, g, b) = ((66 * r + 129 * g + 25 * b + 128) / 256 + 16) % 256

-- `>> 8` of an `i32`, and `as u8`.
abbrev pub shr8 : ℤ → ℤ
shr8 (pos n) = pos (n / 256)
shr8 (negsuc n) = negsuc (n / 256)

abbrev pub as_u8 : ℤ → ℕ
as_u8 (pos n) = n % 256
as_u8 (negsuc n) = 255 - n % 256

unfoldable pub chroma_u : Rgb → ℕ
unfolding ◌+ℤ◌
chroma_u (r, g, b) = as_u8 (shr8 (sub_ℕ (112 * b + 128) (38 * r + 74 * g)) +ℤ pos 128)

unfoldable pub chroma_v : Rgb → ℕ
unfolding ◌+ℤ◌
chroma_v (r, g, b) = as_u8 (shr8 (sub_ℕ (112 * r + 128) (94 * g + 18 * b)) +ℤ pos 128)

-- `&src[start..]`
abbrev pub slice_from : ℕ → List ℕ → Option (List ℕ)
slice_from start src = if leb start (length src) then some (drop start src) else none

-- `&row[start..start + n]`
abbrev pub slice : ℕ → ℕ → List ℕ → Option (List ℕ)
slice start n row = if leb (start + n) (length row) then some (take n (drop start row)) else none

-- The colour of a packed pixel.
unfoldable pub colour : PixelFormat → List ℕ → Option Rgb
colour fmt px =
    or_panic (get_elem? px fmt.r) (λ r.
      or_panic (get_elem? px fmt.g) (λ g. or_panic (get_elem? px fmt.b) (λ b. some (r, g, b))))

-- The pixel in column `col` of a row.
unfoldable pub pixel : PixelFormat → ℕ → List ℕ → Option Rgb
pixel fmt col src_row = or_panic (slice (col * 4) 4 src_row) (colour fmt)

-- A row of luma: `y_row` must lie in the plane.
unfoldable pub luma_row : PixelFormat → ℕ → ℕ → List ℕ → List ℕ → Option (List ℕ)
luma_row fmt w row src_row buf = or_panic (slice (row * w) w buf) (λ y_row.
    for_upto w (λ col b. or_panic (pixel fmt col src_row) (λ c. put (row * w + col) (luma c) b))
      buf)

unfoldable pub luma_plane : List ℕ → ℕ → PixelFormat → ℕ → ℕ → List ℕ → Option (List ℕ)
luma_plane src stride fmt w h = for_upto h (λ row buf.
    or_panic (slice_from (row * stride) src) (λ src_row. luma_row fmt w row src_row buf))

abbrev add_rgb : Rgb → Rgb → Rgb
add_rgb (r, g, b) (r', g', b') = (r + r', g + g', b + b')

-- The sum of the colours of a 2 by 2 block.
unfoldable pub block_sum : List ℕ → ℕ → PixelFormat → ℕ → ℕ → Option Rgb
block_sum src stride fmt cx cy =
    for_upto 2
      (λ dy acc. or_panic (slice_from ((cy * 2 + dy) * stride) src) (λ src_row.
        for_upto 2
          (λ dx acc'. or_panic (pixel fmt (cx * 2 + dx) src_row) (λ c. some (add_rgb acc' c))) acc))
      (0, 0, 0)

abbrev pub quarter : Rgb → Rgb
quarter (r, g, b) = (r / 4, g / 4, b / 4)

unfoldable pub chroma_planes :
    List ℕ → ℕ → PixelFormat → ℕ → ℕ → List ℕ × List ℕ → Option (List ℕ × List ℕ)
chroma_planes src stride fmt cw ch = for_upto ch (λ cy. for_upto cw (λ cx uv.
    or_panic (block_sum src stride fmt cx cy)
      (λ sum. let c = quarter sum in put_both (cy * cw + cx) (chroma_u c) (chroma_v c) uv)))

-- `convert::to_i420`
unfoldable pub to_i420 : List ℕ → ℕ → PixelFormat → I420Buffer → Option I420Buffer
to_i420 src stride fmt dst = or_panic (planes dst) (λ p.
    or_panic (luma_plane src stride fmt dst.width dst.height p.0) (λ y.
      or_panic (chroma_planes src stride fmt (dst.width / 2) (dst.height / 2) (p.1, p.2))
        (λ uv. some (with_planes dst (y, uv.0, uv.1)))))
