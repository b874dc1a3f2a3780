-- ===== src/TestPattern/Render.antt =====
-- loomd/src/media/testpattern.rs: what `render` leaves in every pixel, whatever was there before.
use loom_host.Base.{ℕ, ◌+◌, ◌-◌, ◌*◌, ◌/◌, ◌<◌, ◌==◌, ◌||◌}
use loom_host.Base.{if◌then◌else◌, ◌≡◌, refl, ap, ap₂, sym, ◌∙◌, subst, arith, Bool, true, false}
use loom_host.Base.{none, some, List, length, length-replicate}
use loom_host.Base.Grid.{
  Paint, fill-Paints, dot, over, layers, layers_one, Paints, Paints-same, Paints-over,
  for_upto-Paints, put-Paints, for_upto-pair, or_keep, at, at_ext, put, put_both,
}
use loom_host.Base.Text.{digits, digits-IsDigit}
use loom_host.TestPattern.{
  TestPattern, new, shift_of, gradient, drift_u, drift_v, draw_gradient, draw_chroma, draw_counter,
  draw_parity_border, border_of, render,
}
use loom_host.TestPattern.Glyphs.{counter, counter_from, counter_from-counter, draw_digits-Paints}

-- The planes have the sizes that the dimensions tell.
pub record IsSized (p : TestPattern) : Type 0 where
  pub luma : length p.y ≡ p.width * p.height
  pub blue : length p.u ≡ p.width / 2 * (p.height / 2)
  pub red : length p.v ≡ p.width / 2 * (p.height / 2)

pub new-IsSized : (w h : ℕ) → IsSized (new w h)
unfolding new
new-IsSized w h = record {
  luma = length-replicate (w * h) 0;
  blue = length-replicate (w / 2 * (h / 2)) 128;
  red = length-replicate (w / 2 * (h / 2)) 128;
}

abbrev pub on_border : ℕ → ℕ → ℕ → ℕ → Bool
on_border w h x y = x == 0 || y == 0 || x + 1 == w || y + 1 == h

abbrev border : ℕ → ℕ → ℕ → Paint
border w h c x y = if on_border w h x y then some c else none

module _ (w h : ℕ) where
  -- Four lines of dots, seen at one pixel.
  border_same :
      (c x y : ℕ)
      → x < w
      → y < h
      → over
          (layers w (λ i. over (dot i 0 c) (dot i (h - 1) c)))
          (layers h (λ i. over (dot 0 i c) (dot (w - 1) i c)))
          x
          y
        ≡ border w h c x y
  border_same c x y lx ly =
      let a = layers_one w x (λ i. over (dot i 0 c) (dot i (h - 1) c)) x y (λ i ne. ground arith) in
      let b = layers_one h y (λ i. over (dot 0 i c) (dot (w - 1) i c)) x y (λ i ne. ground arith) in
      ground arith

  border-Paints :
      (n : ℕ) (buf : List ℕ)
      → length buf ≡ w * h
      → 0 < w
      → 0 < h
      → Paints w h (border w h (border_of n)) buf (draw_parity_border w h n buf)
  unfolding draw_parity_border
  border-Paints n buf size pw ph =
      let c = border_of n in
      let ends = λ (x : ℕ). over (dot x 0 c) (dot x (h - 1) c) in
      let sides = λ (y : ℕ). over (dot 0 y c) (dot (w - 1) y c) in
      Paints-same w h (over (layers w ends) (layers h sides)) (border w h c) buf _
        (λ x y lx ly. border_same c x y lx ly)
        (Paints-over w h (layers w ends) (layers h sides) buf _ _
          (for_upto-Paints w h w ends _ buf size (λ x b lx s.
            Paints-over w h (dot x 0 c) (dot x (h - 1) c) b _ _
              (subst (λ i. Paints w h (dot x 0 c) b (put i c b)) (omega arith)
                (put-Paints w h x 0 c b s lx ph))
              (λ b2 s2. put-Paints w h x (h - 1) c b2 s2 lx (omega arith))))
          (λ b s. for_upto-Paints w h h sides _ b s (λ y b2 ly s2.
            Paints-over w h (dot 0 y c) (dot (w - 1) y c) b2 _ _
              (subst (λ i. Paints w h (dot 0 y c) b2 (put i c b2)) (omega arith)
                (put-Paints w h 0 y c b2 s2 pw ly))
              (λ b3 s3. put-Paints w h (w - 1) y c b3 s3 (omega arith) ly))))

or_keep-if :
    (b : Bool) (c old : ℕ) → or_keep (if b then some c else none) old ≡ (if b then c else old)
or_keep-if true c old = refl
or_keep-if false c old = refl

-- The luma of a pixel after `render n`: the border, or the counter, or the gradient.
abbrev pub luma_of : ℕ → ℕ → ℕ → ℕ → ℕ → ℕ
luma_of w h n x y =
    if on_border w h x y
    then border_of n
    else or_keep (counter (digits n) x y) (gradient (shift_of n) x y)

module _ (w h : ℕ) where
  chroma_ends :
      (shift : ℕ) (u v : List ℕ)
      → length u ≡ w * h
      → length v ≡ w * h
      → (a : List ℕ) × (b : List ℕ) × (draw_chroma w h shift (u, v) ≡ some (a, b))
        × ((x y : ℕ) → x < w → y < h → at w a x y ≡ drift_u shift x)
        × ((x y : ℕ) → x < w → y < h → at w b x y ≡ drift_v shift y)
        × (length a ≡ w * h)
        × (length b ≡ w * h)
  unfolding draw_chroma
  chroma_ends shift u v su sv =
      let a = fill-Paints w h (λ x y. drift_u shift x) u su in
      let b = fill-Paints w h (λ x y. drift_v shift y) v sv in
      (
        a.out,
        b.out,
        for_upto-pair h _ _ _ u v a.out b.out
            (λ cy s t s' t' lt p q.
              for_upto-pair w _ _ _ s t s' t'
                (λ cx s1 t1 s2 t2 lt2 p2 q2. rw (put_both, p2, q2) refl) p q)
            a.returns b.returns,
        a.pixels,
        b.pixels,
        a.size,
        b.size,
      )

-- The planes after `render n`.
pub record Rendered (n : ℕ) (p : TestPattern) : Type 0 where
  pub out : TestPattern
  pub returns : render n p ≡ some out
  pub width : out.width ≡ p.width
  pub height : out.height ≡ p.height
  pub sized : IsSized out
  pub luma :
      (x y : ℕ) → x < p.width → y < p.height → at p.width out.y x y ≡ luma_of p.width p.height n x y
  pub blue :
      (x y : ℕ)
      → x < p.width / 2
      → y < p.height / 2
      → at (p.width / 2) out.u x y ≡ drift_u (shift_of n) x
  pub red :
      (x y : ℕ)
      → x < p.width / 2
      → y < p.height / 2
      → at (p.width / 2) out.v x y ≡ drift_v (shift_of n) y

-- `render` does not panic on planes of the right sizes whose frame has pixels; it keeps the sizes, and it leaves in
-- every pixel a value that its place and the number of the frame alone determine: on the border
-- the parity's shade, else the frame counter where it covers the pixel, else the gradient; in
-- the chroma planes the drift.
pub render-Rendered :
    (n : ℕ) (p : TestPattern) → IsSized p → 0 < p.width → 0 < p.height → Rendered n p
unfolding render draw_gradient draw_counter
render-Rendered n p s pw ph =
    let w = p.width in
    let h = p.height in
    let shift = shift_of n in
    let ds = digits n in
    let base = fill-Paints w h (gradient shift) p.y s.luma in
    let (a, b, chroma, pa, pb, sa, sb) = chroma_ends (w / 2) (h / 2) shift p.u p.v s.blue s.red in
    let marks = draw_digits-Paints w h 0 ds base.out (digits-IsDigit n) base.size in
    let edge = border-Paints w h n marks.out marks.size pw ph in
    record {
      out = record p { y = edge.out; u = a; v = b };
      returns = rw (render, base.returns, chroma, marks.returns, edge.returns) refl;
      width = refl;
      height = refl;
      sized = record { luma = edge.size; blue = sa; red = sb };
      luma = λ x y lx ly.
          edge.pixels x y lx ly
          ∙ ap (or_keep (border w h (border_of n) x y)) (
              marks.pixels x y lx ly
              ∙ ap (or_keep (counter_from 0 ds x y)) (base.pixels x y lx ly)
              ∙ ap (λ o. or_keep o (gradient shift x y)) (counter_from-counter ds x y))
          ∙ or_keep-if (on_border w h x y) (border_of n) _;
      blue = pa;
      red = pb;
    }

same_pattern :
    (a b : TestPattern)
    → a.width ≡ b.width
    → a.height ≡ b.height
    → a.y ≡ b.y
    → a.u ≡ b.u
    → a.v ≡ b.v
    → a ≡ b
same_pattern a b e k l m o = ground arith

-- A buffer that is used again: rendering into it, whatever it holds, gives the very planes that rendering
-- into a new pattern of the same size gives.
pub render-new :
    (n : ℕ) (p : TestPattern)
    → IsSized p
    → 0 < p.width
    → 0 < p.height
    → render n p ≡ render n (new p.width p.height)
unfolding new
render-new n p s pw ph =
    let a = render-Rendered n p s pw ph in
    let b = render-Rendered n (new p.width p.height) (new-IsSized p.width p.height) pw ph in
    let w = p.width in
    let h = p.height in
    let luma_size = λ (x y : ℕ) (e : x ≡ w) (k : y ≡ h). ap₂ (λ (i j : ℕ). i * j) e k in
    let chroma_size = λ (x y : ℕ) (e : x ≡ w) (k : y ≡ h). ap₂ (λ (i j : ℕ). i / 2 * (j / 2)) e k in
    let ys =
      at_ext w h a.out.y b.out.y (a.sized.luma ∙ luma_size _ _ a.width a.height)
        (b.sized.luma ∙ luma_size _ _ b.width b.height)
        (λ x y lx ly. a.luma x y lx ly ∙ sym (b.luma x y lx ly)) in
    let us =
      at_ext (w / 2) (h / 2) a.out.u b.out.u (a.sized.blue ∙ chroma_size _ _ a.width a.height)
        (b.sized.blue ∙ chroma_size _ _ b.width b.height)
        (λ x y lx ly. a.blue x y lx ly ∙ sym (b.blue x y lx ly)) in
    let vs =
      at_ext (w / 2) (h / 2) a.out.v b.out.v (a.sized.red ∙ chroma_size _ _ a.width a.height)
        (b.sized.red ∙ chroma_size _ _ b.width b.height)
        (λ x y lx ly. a.red x y lx ly ∙ sym (b.red x y lx ly)) in
    a.returns
    ∙ ap some (same_pattern a.out b.out (a.width ∙ sym b.width) (a.height ∙ sym b.height) ys us vs)
    ∙ sym b.returns
