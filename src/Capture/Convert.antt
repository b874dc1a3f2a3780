-- ===== src/Capture/Convert.antt =====
-- loom-capture/src/convert.rs: what the conversion of a packed frame puts into every sample, and that it
-- panics exactly if the source is too short.
use loom_host.Base.{ℕ, zero, suc, ◌+◌, ◌-◌, ◌*◌, ◌/◌, ◌≤◌, ◌<◌, leb}
use loom_host.Base.{
  ◌≡◌, refl, ap, sym, ◌∙◌, subst, arith, true, false, Bool-cases, Option-cases, inl, inr,
}
use loom_host.Base.{Option, none, some, List, length, drop, get_or}
use loom_host.Base.{length-drop, drop-drop}
use loom_host.Base.Grid.{
  fill-Paints, dot, layers, layers-full, full, Paints, Paints-same, for_upto-Paints, put-Paints,
  for_upto, for_upto-pair, at, put_both,
}
use loom_host.Capture.{
  I420Buffer, PixelFormat, Rgb, planes, with_planes, luma, chroma_u, chroma_v, slice_from, slice,
  colour, pixel, luma_row, luma_plane, block_sum, chroma_planes, to_i420,
}
use loom_host.Capture.Frames.{
  IsFrame, planes-Splits, planes-with_planes, with_planes-IsFrame, get_elem?-take-drop,
}

-- The colours lie among the 4 bytes of a pixel.
abbrev pub IsLayout : PixelFormat → Type 0
IsLayout fmt = (fmt.r < 4) × (fmt.g < 4) × (fmt.b < 4)

-- The colour of the source pixel in column `x` of row `y`.
abbrev pub source : List ℕ → ℕ → PixelFormat → ℕ → ℕ → Rgb
source src stride fmt x y =
    let k = y * stride + x * 4 in
    (get_or src (k + fmt.r) 0, get_or src (k + fmt.g) 0, get_or src (k + fmt.b) 0)

-- The source holds the last pixel of the last row.
abbrev pub Holds : List ℕ → ℕ → ℕ → ℕ → Type 0
Holds src stride w h = (h - 1) * stride + w * 4 ≤ length src

-- The sum of the colours of a 2 by 2 block.
abbrev pub block : List ℕ → ℕ → PixelFormat → ℕ → ℕ → Rgb
block src stride fmt x y =
    let a = source src stride fmt (x * 2) (y * 2) in
    let b = source src stride fmt (x * 2 + 1) (y * 2) in
    let c = source src stride fmt (x * 2) (y * 2 + 1) in
    let d = source src stride fmt (x * 2 + 1) (y * 2 + 1) in
    (a.0 + b.0 + c.0 + d.0, a.1 + b.1 + c.1 + d.1, a.2 + b.2 + c.2 + d.2)

-- The mean of the 2 by 2 block, channel by channel, rounded down.
abbrev pub mean : List ℕ → ℕ → PixelFormat → ℕ → ℕ → Rgb
mean src stride fmt x y = let s = block src stride fmt x y in (s.0 / 4, s.1 / 4, s.2 / 4)

abbrev some_rgb : ℕ → ℕ → ℕ → Option Rgb
some_rgb r g b = some (r, g, b)

from_zero :
    (a b c d : Rgb)
    → some_rgb (0 + a.0 + b.0 + c.0 + d.0) (0 + a.1 + b.1 + c.1 + d.1) (0 + a.2 + b.2 + c.2 + d.2)
      ≡ some_rgb (a.0 + b.0 + c.0 + d.0) (a.1 + b.1 + c.1 + d.1) (a.2 + b.2 + c.2 + d.2)
from_zero a b c d = ground arith

row_inside : (w h y : ℕ) (b : List ℕ) → y < h → length b ≡ w * h → leb (y * w + w) (length b) ≡ true
row_inside w h y b ly s = let more : y * w + w ≤ w * h = grind arith in ground arith

module _ (src : List ℕ) (stride : ℕ) (fmt : PixelFormat) (w h : ℕ) (layout : IsLayout fmt)
    (holds : Holds src stride w h) where
  end_of_row : (x y : ℕ) → x < w → y < h → y * stride + x * 4 + 4 ≤ length src
  end_of_row x y lx ly = let rows : y * stride ≤ (h - 1) * stride = grind arith in omega arith

  row_ok : (y : ℕ) → y < h → slice_from (y * stride) src ≡ some (drop (y * stride) src)
  row_ok y ly = let rows : y * stride ≤ (h - 1) * stride = grind arith in ground arith

  pixel_ok :
      (x y : ℕ)
      → x < w
      → y < h
      → pixel fmt x (drop (y * stride) src) ≡ some (source src stride fmt x y)
  unfolding pixel colour
  pixel_ok x y lx ly =
      let e = end_of_row x y lx ly in
      let k = y * stride in
      let row = drop k src in
      let size = length-drop k src in
      let inside : leb (x * 4 + 4) (length row) ≡ true = ground arith in
      let same : drop (x * 4) row ≡ drop (k + x * 4) src = drop-drop (x * 4) k src in
      let r = get_elem?-take-drop (k + x * 4) 4 fmt.r src layout.0 (omega arith) in
      let g = get_elem?-take-drop (k + x * 4) 4 fmt.g src layout.1 (omega arith) in
      let b = get_elem?-take-drop (k + x * 4) 4 fmt.b src layout.2 (omega arith) in
      rw (pixel, slice, inside, same, colour, r, g, b) refl

  luma-Paints :
      (buf : List ℕ)
      → length buf ≡ w * h
      → Paints w h
          (full (λ x y. luma (source src stride fmt x y)))
          buf
          (luma_plane src stride fmt w h buf)
  unfolding luma_plane luma_row
  luma-Paints buf size =
      let g = λ (x y : ℕ). luma (source src stride fmt x y) in
      let row = λ (y : ℕ). layers w (λ x. dot x y (g x y)) in
      Paints-same w h (layers h row) (full g) buf _ (λ x y lx ly. layers-full w h g x y lx ly)
        (for_upto-Paints w h h row _ buf size (λ y b ly s.
          let inside : leb (y * w + w) (length b) ≡ true = row_inside w h y b ly s in
          rw (row_ok y ly, inside)
            (for_upto-Paints w h w (λ x. dot x y (g x y)) _ b s
              (λ x b2 lx s2. rw (pixel_ok x y lx ly) (put-Paints w h x y (g x y) b2 s2 lx ly)))))

  block_sum-block :
      (x y : ℕ)
      → x < w / 2
      → y < h / 2
      → block_sum src stride fmt x y ≡ some (block src stride fmt x y)
  unfolding block_sum
  block_sum-block x y lx ly =
      let top = y * 2 in
      let left = x * 2 in
      let col : left ≡ left + 0 = omega arith in
      let r0 : slice_from ((top + 0) * stride) src ≡ some (drop (top * stride) src) =
        subst (λ k. slice_from (k * stride) src ≡ some (drop (top * stride) src)) {x = top}
          (omega arith) (row_ok top (omega arith)) in
      let r1 = row_ok (top + 1) (omega arith) in
      let a : pixel fmt (left + 0) (drop (top * stride) src)
          ≡ some (source src stride fmt left top) =
        ap (λ k. pixel fmt k (drop (top * stride) src)) (sym col)
        ∙ pixel_ok left top (omega arith) (omega arith) in
      let b = pixel_ok (left + 1) top (omega arith) (omega arith) in
      let c : pixel fmt (left + 0) (drop ((top + 1) * stride) src)
          ≡ some (source src stride fmt left (top + 1)) =
        ap (λ k. pixel fmt k (drop ((top + 1) * stride) src)) (sym col)
        ∙ pixel_ok left (top + 1) (omega arith) (omega arith) in
      let d = pixel_ok (left + 1) (top + 1) (omega arith) (omega arith) in
      rw (r0, r1, a, b, c, d) (from_zero _ _ _ _)

  chroma_ends :
      (u v : List ℕ)
      → length u ≡ w / 2 * (h / 2)
      → length v ≡ w / 2 * (h / 2)
      → (a : List ℕ) × (b : List ℕ) × (chroma_planes src stride fmt (w / 2) (h / 2) (u, v)
          ≡ some (a, b))
        × ((x y : ℕ)
            → x < w / 2
            → y < h / 2
            → at (w / 2) a x y ≡ chroma_u (mean src stride fmt x y))
        × ((x y : ℕ)
            → x < w / 2
            → y < h / 2
            → at (w / 2) b x y ≡ chroma_v (mean src stride fmt x y))
        × (length a ≡ w / 2 * (h / 2))
        × (length b ≡ w / 2 * (h / 2))
  unfolding chroma_planes
  chroma_ends u v su sv =
      let a = fill-Paints (w / 2) (h / 2) (λ x y. chroma_u (mean src stride fmt x y)) u su in
      let b = fill-Paints (w / 2) (h / 2) (λ x y. chroma_v (mean src stride fmt x y)) v sv in
      (
        a.out,
        b.out,
        for_upto-pair (h / 2) _ _ _ u v a.out b.out
            (λ cy s t s' t' ly p q.
              for_upto-pair (w / 2) _ _ _ s t s' t'
                (λ cx s1 t1 s2 t2 lx p2 q2. rw (block_sum-block cx cy lx ly, put_both, p2, q2) refl)
                p q)
            a.returns b.returns,
        a.pixels,
        b.pixels,
        a.size,
        b.size,
      )

-- The frame that a conversion leaves.
pub record Converts (src : List ℕ) (stride : ℕ) (fmt : PixelFormat) (dst : I420Buffer)
    : Type 0 where
  pub y : List ℕ
  pub u : List ℕ
  pub v : List ℕ
  pub returns : to_i420 src stride fmt dst ≡ some (with_planes dst (y, u, v))
  pub frame : IsFrame (with_planes dst (y, u, v))
  pub splits : planes (with_planes dst (y, u, v)) ≡ some (y, u, v)
  pub luma :
      (i j : ℕ)
      → i < dst.width
      → j < dst.height
      → at dst.width y i j ≡ luma (source src stride fmt i j)
  pub blue :
      (i j : ℕ)
      → i < dst.width / 2
      → j < dst.height / 2
      → at (dst.width / 2) u i j ≡ chroma_u (mean src stride fmt i j)
  pub red :
      (i j : ℕ)
      → i < dst.width / 2
      → j < dst.height / 2
      → at (dst.width / 2) v i j ≡ chroma_v (mean src stride fmt i j)

-- A source whose last row is whole, at the stride that is given, converts without a panic: the frame keeps
-- its form, a luma sample is that of the source pixel, and a chroma sample that of the mean of the 2 by 2 block.
pub to_i420-Converts :
    (src : List ℕ) (stride : ℕ) (fmt : PixelFormat) (dst : I420Buffer)
    → IsFrame dst
    → IsLayout fmt
    → Holds src stride dst.width dst.height
    → Converts src stride fmt dst
unfolding to_i420
to_i420-Converts src stride fmt dst frame layout holds =
    let w = dst.width in
    let h = dst.height in
    let p = planes-Splits dst frame in
    let y = luma-Paints src stride fmt w h layout holds p.y p.luma in
    let (u, v, chroma, pu, pv, su, sv) =
      chroma_ends src stride fmt w h layout holds p.u p.v p.blue p.red in
    record {
      y = y.out;
      u = u;
      v = v;
      returns = rw (to_i420, p.splits, y.returns, chroma) refl;
      frame = with_planes-IsFrame dst y.out u v frame y.size su sv;
      splits = planes-with_planes dst y.out u v y.size su sv;
      luma = y.pixels;
      blue = pu;
      red = pv;
    }

for_upto_last :
    {A : Type 0} (n : ℕ) (body : ℕ → A → Option A) (a : A)
    → 0 < n
    → ((b : A) → body (n - 1) b ≡ none)
    → for_upto n body a ≡ none
for_upto_last zero body a pos h = absurd (omega arith)
for_upto_last (suc n) body a pos h = elim (Option-cases (for_upto n body a)) [
  | inl e ↦ rw (for_upto, e) refl
  | inr (b, e) ↦ rw (for_upto, e) (ap (λ k. body k b) {x = n} (omega arith) ∙ h b)
]

pixel_short :
    (fmt : PixelFormat) (col : ℕ) (row : List ℕ)
    → length row < col * 4 + 4
    → pixel fmt col row ≡ none
unfolding pixel
pixel_short fmt col row short =
    let outside : leb (col * 4 + 4) (length row) ≡ false = ground arith in
    rw (pixel, slice, outside) refl

-- A source that lacks a byte of the last row, at the stride that is given, is a panic, whatever the stride is.
pub to_i420_short :
    (src : List ℕ) (stride : ℕ) (fmt : PixelFormat) (dst : I420Buffer)
    → IsFrame dst
    → 0 < dst.width
    → 0 < dst.height
    → length src < (dst.height - 1) * stride + dst.width * 4
    → to_i420 src stride fmt dst ≡ none
unfolding to_i420 luma_plane luma_row
to_i420_short src stride fmt dst frame pw ph short =
    let p = planes-Splits dst frame in
    let start = (dst.height - 1) * stride in
    let size = length-drop start src in
    let luma : luma_plane src stride fmt dst.width dst.height p.y ≡ none =
      for_upto_last dst.height _ p.y ph (λ b. elim (Bool-cases (leb start (length src))) [
        | inl e ↦ elim (Bool-cases (leb ((dst.height - 1) * dst.width + dst.width) (length b))) [
          | inl k ↦
              rw (e, k)
                (for_upto_last dst.width _ b pw
                  (λ b2. rw (pixel_short fmt (dst.width - 1) (drop start src) (omega arith)) refl))
          | inr k ↦ rw (e, k) refl
        ]
        | inr e ↦ rw e refl
      ]) in
    rw (to_i420, p.splits, luma) refl
