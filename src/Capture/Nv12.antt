-- ===== src/Capture/Nv12.antt =====
-- loom-capture/src/nv12.rs: the split of a frame with one interleaved chroma plane into three planes. A slice or
-- an index out of range is `none`.
use loom_host.Base.{ℕ, ◌+◌, ◌-◌, ◌*◌, ◌/◌, ◌≤◌, ◌<◌, leb, if◌then◌else◌, ◌≡◌, refl, arith}
use loom_host.Base.{true, Option, none, some, List, length, take, drop, get_or, get_elem?}
use loom_host.Base.{length-drop, ap, sym, ◌∙◌}
use loom_host.Base.Grid.{
  dot, layers, layers-full, full, fill-Paints, Paints, Paints-same, for_upto-Paints, put-Paints,
  for_upto, for_upto-pair, for_upto-pair, for_upto-pair_kept, or_panic, at, put, put_both,
}
use loom_host.Capture.{I420Buffer, planes, with_planes, slice_from}
use loom_host.Capture.Frames.{
  IsFrame, planes-Splits, planes-with_planes, with_planes-IsFrame, get_elem?-take-drop,
}

-- `&xs[start..][..n]`
unfoldable pub row_of : ℕ → ℕ → List ℕ → Option (List ℕ)
row_of start n xs =
    or_panic (slice_from start xs)
      (λ rest. if leb n (length rest) then some (take n rest) else none)

-- `dst[start..][..n].copy_from_slice(src)`, of a `src` with `n` bytes.
unfoldable pub copy_row : ℕ → ℕ → List ℕ → List ℕ → Option (List ℕ)
copy_row start n src dst =
    or_panic (row_of start n dst)
      (λ old. for_upto n (λ i buf. or_panic (get_elem? src i) (λ x. put (start + i) x buf)) dst)

unfoldable pub luma_rows : List ℕ → ℕ → ℕ → ℕ → List ℕ → Option (List ℕ)
luma_rows y y_stride width height = for_upto height (λ row dst_y.
    or_panic (row_of (row * y_stride) width y) (λ src. copy_row (row * width) width src dst_y))

-- A row of chroma, of which `src` holds the pairs.
unfoldable pub chroma_row : ℕ → ℕ → List ℕ → List ℕ × List ℕ → Option (List ℕ × List ℕ)
chroma_row start chroma_width src (dst_u, dst_v) =
    or_panic (row_of start chroma_width dst_u) (λ u_row.
      or_panic (row_of start chroma_width dst_v) (λ v_row.
        for_upto chroma_width
          (λ i planes.
            or_panic (get_elem? src (2 * i)) (λ cb.
              or_panic (get_elem? src (2 * i + 1)) (λ cr. put_both (start + i) cb cr planes)))
          (dst_u, dst_v)))

unfoldable pub chroma_rows : List ℕ → ℕ → ℕ → ℕ → List ℕ × List ℕ → Option (List ℕ × List ℕ)
chroma_rows uv uv_stride chroma_width rows = for_upto rows (λ row dst.
    or_panic (row_of (row * uv_stride) (chroma_width * 2) uv)
      (λ src. chroma_row (row * chroma_width) chroma_width src dst))

-- `nv12::to_i420`
unfoldable pub split_nv12 : List ℕ → ℕ → List ℕ → ℕ → I420Buffer → Option I420Buffer
split_nv12 y y_stride uv uv_stride dst = or_panic (planes dst) (λ p.
    or_panic (luma_rows y y_stride dst.width dst.height p.0) (λ dst_y.
      or_panic (chroma_rows uv uv_stride (dst.width / 2) (dst.height / 2) (p.1, p.2))
        (λ dst_uv. some (with_planes dst (dst_y, dst_uv.0, dst_uv.1)))))

-- The last of `rows` rows of `n` bytes is whole.
abbrev pub HasRows : List ℕ → ℕ → ℕ → ℕ → Type 0
HasRows xs stride n rows = (rows - 1) * stride + n ≤ length xs

row_of-take :
    (start n : ℕ) (xs : List ℕ)
    → start + n ≤ length xs
    → row_of start n xs ≡ some (take n (drop start xs))
unfolding row_of
row_of-take start n xs h =
    let size = length-drop start xs in
    let low : leb start (length xs) ≡ true = ground arith in
    let high : leb n (length (drop start xs)) ≡ true = ground arith in rw (row_of, low, high) refl

row_end :
    (xs : List ℕ) (stride n rows i : ℕ)
    → i < rows
    → HasRows xs stride n rows
    → i * stride + n ≤ length xs
row_end xs stride n rows i lt h =
    let le : i * stride ≤ (rows - 1) * stride = grind arith in omega arith

plane_row : (w h y : ℕ) (b : List ℕ) → y < h → length b ≡ w * h → y * w + w ≤ length b
plane_row w h y b ly s = let more : y * w + w ≤ w * h = grind arith in omega arith

module _ (w h stride : ℕ) where
  luma-Paints :
      (y buf : List ℕ)
      → HasRows y stride w h
      → length buf ≡ w * h
      → Paints w h (full (λ i j. get_or y (j * stride + i) 0)) buf (luma_rows y stride w h buf)
  unfolding luma_rows copy_row
  luma-Paints y buf has size =
      let g = λ (i j : ℕ). get_or y (j * stride + i) 0 in
      let row = λ (j : ℕ). layers w (λ i. dot i j (g i j)) in
      Paints-same w h (layers h row) (full g) buf _ (λ i j li lj. layers-full w h g i j li lj)
        (for_upto-Paints w h h row _ buf size (λ j b lj s.
          let whole = row_end y stride w h j lj has in
          rw (row_of-take (j * stride) w y whole, row_of-take (j * w) w b (plane_row w h j b lj s))
            (for_upto-Paints w h w (λ i. dot i j (g i j)) _ b s
              (λ i b2 li s2.
                rw (get_elem?-take-drop (j * stride) w i y li (omega arith))
                  (put-Paints w h i j (g i j) b2 s2 li lj)))))

-- A row of one chroma plane.
abbrev chroma_paint : ℕ → ℕ → (ℕ → ℕ) → List ℕ → Option (List ℕ)
chroma_paint w j g = for_upto w (λ i. put (j * w + i) (g i))

module _ (w h stride : ℕ) where
  paint_row :
      (j : ℕ) (g : ℕ → ℕ) (b : List ℕ)
      → j < h
      → length b ≡ w * h
      → Paints w h (layers w (λ i. dot i j (g i))) b (chroma_paint w j g b)
  paint_row j g b lj s =
      for_upto-Paints w h w (λ i. dot i j (g i)) _ b s
        (λ i b2 li s2. put-Paints w h i j (g i) b2 s2 li lj)

  kept :
      (j : ℕ) (g : ℕ → ℕ) (b b' : List ℕ)
      → j < h
      → length b ≡ w * h
      → chroma_paint w j g b ≡ some b'
      → length b' ≡ w * h
  kept j g b b' lj s e =
      let a = paint_row j g b lj s in
      let r = a.returns in let same : a.out ≡ b' = ground arith in sym (ap length same) ∙ a.size

  chroma_ends :
      (uv u v : List ℕ)
      → HasRows uv stride (w * 2) h
      → length u ≡ w * h
      → length v ≡ w * h
      → (a : List ℕ) × (b : List ℕ) × (chroma_rows uv stride w h (u, v) ≡ some (a, b))
        × ((i j : ℕ) → i < w → j < h → at w a i j ≡ get_or uv (j * stride + 2 * i) 0)
        × ((i j : ℕ) → i < w → j < h → at w b i j ≡ get_or uv (j * stride + (2 * i + 1)) 0)
        × (length a ≡ w * h)
        × (length b ≡ w * h)
  unfolding chroma_rows chroma_row
  chroma_ends uv u v has su sv =
      let cb = λ (i j : ℕ). get_or uv (j * stride + 2 * i) 0 in
      let cr = λ (i j : ℕ). get_or uv (j * stride + (2 * i + 1)) 0 in
      let a = fill-Paints w h cb u su in
      let b = fill-Paints w h cr v sv in
      (
        a.out,
        b.out,
        (for_upto-pair_kept (λ xs. length xs ≡ w * h) h _ _ _ u v a.out b.out su sv
            (λ j s s' lj size e. kept j (λ i. cb i j) s s' lj size e)
            (λ j s s' lj size e. kept j (λ i. cr i j) s s' lj size e)
            (λ j s t s' t' lj ps pt p q.
              let whole = row_end uv stride (w * 2) h j lj has in
              rw
                (
                  row_of-take (j * stride) (w * 2) uv whole,
                  row_of-take (j * w) w s (plane_row w h j s lj ps),
                  row_of-take (j * w) w t (plane_row w h j t lj pt),
                )
                (for_upto-pair w _ _ _ s t s' t'
                  (λ i s1 t1 s2 t2 li p2 q2.
                    rw
                      (
                        get_elem?-take-drop (j * stride) (w * 2) (2 * i) uv (omega arith)
                            (omega arith),
                        get_elem?-take-drop (j * stride) (w * 2) (2 * i + 1) uv (omega arith)
                            (omega arith),
                        put_both,
                        p2,
                        q2,
                      )
                      refl)
                  p q))
            a.returns b.returns).0,
        a.pixels,
        b.pixels,
        a.size,
        b.size,
      )

-- The frame that the split leaves.
pub record Deinterleaves (y_plane : List ℕ) (y_stride : ℕ) (uv_plane : List ℕ) (uv_stride : ℕ)
    (dst : I420Buffer) : Type 0 where
  pub y : List ℕ
  pub u : List ℕ
  pub v : List ℕ
  pub returns :
      split_nv12 y_plane y_stride uv_plane uv_stride dst ≡ some (with_planes dst (y, u, v))
  pub frame : IsFrame (with_planes dst (y, u, v))
  pub splits : planes (with_planes dst (y, u, v)) ≡ some (y, u, v)
  pub luma :
      (i j : ℕ)
      → i < dst.width
      → j < dst.height
      → at dst.width y i j ≡ get_or y_plane (j * y_stride + i) 0
  pub blue :
      (i j : ℕ)
      → i < dst.width / 2
      → j < dst.height / 2
      → at (dst.width / 2) u i j ≡ get_or uv_plane (j * uv_stride + 2 * i) 0
  pub red :
      (i j : ℕ)
      → i < dst.width / 2
      → j < dst.height / 2
      → at (dst.width / 2) v i j ≡ get_or uv_plane (j * uv_stride + (2 * i + 1)) 0

-- Planes whose last rows are whole, at the strides that are given, are split without a panic: the frame keeps
-- its form, the luma is copied without the padding, and each byte of a pair goes to its own plane.
pub split_nv12-Deinterleaves :
    (y : List ℕ) (y_stride : ℕ) (uv : List ℕ) (uv_stride : ℕ) (dst : I420Buffer)
    → IsFrame dst
    → HasRows y y_stride dst.width dst.height
    → HasRows uv uv_stride (dst.width / 2 * 2) (dst.height / 2)
    → Deinterleaves y y_stride uv uv_stride dst
unfolding split_nv12
split_nv12-Deinterleaves y y_stride uv uv_stride dst frame has_y has_uv =
    let w = dst.width in
    let h = dst.height in
    let p = planes-Splits dst frame in
    let luma = luma-Paints w h y_stride y p.y has_y p.luma in
    let (u, v, chroma, pu, pv, su, sv) =
      chroma_ends (w / 2) (h / 2) uv_stride uv p.u p.v has_uv p.blue p.red in
    record {
      y = luma.out;
      u = u;
      v = v;
      returns = rw (split_nv12, p.splits, luma.returns, chroma) refl;
      frame = with_planes-IsFrame dst luma.out u v frame luma.size su sv;
      splits = planes-with_planes dst luma.out u v luma.size su sv;
      luma = luma.pixels;
      blue = pu;
      red = pv;
    }
