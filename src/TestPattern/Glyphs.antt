-- ===== src/TestPattern/Glyphs.antt =====
-- loomd/src/media/testpattern.rs: which pixels the digits of the frame counter paint, and how.
use loom_host.Base.{ℕ, zero, suc, ◌+◌, ◌-◌, ◌*◌, ◌/◌, ◌%◌, ◌<◌, ltb, leb, ◌==◌, ◌&&◌, if◌then◌else◌}
use loom_host.Base.{◌≡◌, refl, ap, sym, ◌∙◌, arith, true, Bool-cases, inl, inr}
use loom_host.Base.{Option, none, some, List, [], ◌∷◌, length, get_or, get_elem?, All}
use loom_host.Base.Grid.{
  Paint, dot, nothing, over, layers, layers_one, layers-none, layers-same, Paints, Paints-same,
  Paints-nothing, Paints-over, for_upto-Paints, put-Paints, for_upto,
}
use loom_host.Base.Text.{IsDigit}
use loom_host.TestPattern.{font, ink, put_inside, draw_glyph, draw_digits}

-- A rectangle from (X, Y), of which each pixel has a value.
abbrev pub rect : ℕ → ℕ → ℕ → ℕ → (ℕ → ℕ → ℕ) → Paint
rect X Y cols rows g x y =
    if leb X x && ltb x (X + cols) && leb Y y && ltb y (Y + rows)
    then some (g (x - X) (y - Y))
    else none

-- A row of `n` dots.
row_of_dots :
    (n X Y v x y : ℕ) → layers n (λ dx. dot (X + dx) Y v) x y ≡ rect X Y n 1 (λ a b. v) x y
row_of_dots n X Y v x y = elim (Bool-cases (leb X x)) [
  | inl e ↦ layers_one n (x - X) (λ dx. dot (X + dx) Y v) x y (λ i ne. ground arith) ∙ ground arith
  | inr e ↦ layers-none n (λ dx. dot (X + dx) Y v) x y (λ i lt. ground arith) ∙ ground arith
]

-- Rows of dots, one under the other.
rows_of_dots :
    (n X Y cols v x y : ℕ)
    → layers n (λ dy. rect X (Y + dy) cols 1 (λ a b. v)) x y ≡ rect X Y cols n (λ a b. v) x y
rows_of_dots n X Y cols v x y = elim (Bool-cases (leb Y y)) [
  | inl e ↦
      layers_one n (y - Y) (λ dy. rect X (Y + dy) cols 1 (λ a b. v)) x y (λ i ne. ground arith)
      ∙ ground arith
  | inr e ↦
      layers-none n (λ dy. rect X (Y + dy) cols 1 (λ a b. v)) x y (λ i lt. ground arith)
      ∙ ground arith
]

-- Blocks of 8 columns, one beside the other.
beside :
    (n X Y rows : ℕ) (g : ℕ → ℕ) (x y : ℕ)
    → layers n (λ j. rect (X + j * 8) Y 8 rows (λ a b. g j)) x y
      ≡ rect X Y (n * 8) rows (λ a b. g (a / 8)) x y
beside n X Y rows g x y =
    let k = (x - X) / 8 in
    elim (Bool-cases (leb X x)) [
      | inl e ↦
          layers_one n k (λ j. rect (X + j * 8) Y 8 rows (λ a b. g j)) x y (λ i ne. ground arith)
          ∙ ground arith
      | inr e ↦
          layers-none n (λ j. rect (X + j * 8) Y 8 rows (λ a b. g j)) x y (λ i lt. ground arith)
          ∙ ground arith
    ]

-- Blocks of 8 rows, one under the other.
stacked :
    (n X Y cols : ℕ) (g : ℕ → ℕ → ℕ) (x y : ℕ)
    → layers n (λ j. rect X (Y + j * 8) cols 8 (λ a b. g j a)) x y
      ≡ rect X Y cols (n * 8) (λ a b. g (b / 8) a) x y
stacked n X Y cols g x y =
    let k = (y - Y) / 8 in
    elim (Bool-cases (leb Y y)) [
      | inl e ↦
          layers_one n k (λ j. rect X (Y + j * 8) cols 8 (λ a b. g j a)) x y (λ i ne. ground arith)
          ∙ ground arith
      | inr e ↦
          layers-none n (λ j. rect X (Y + j * 8) cols 8 (λ a b. g j a)) x y (λ i lt. ground arith)
          ∙ ground arith
    ]

-- The pixels of a digit: 24 by 40, each font pixel 8 by 8.
abbrev pub glyph : List ℕ → ℕ → ℕ → Paint
glyph rows ox oy = rect ox oy 24 40 (λ a b. ink (get_or rows (b / 8) 0) (a / 8))

module _ (w h : ℕ) where
  put_inside-Paints :
      (px py v : ℕ) (buf : List ℕ)
      → length buf ≡ w * h
      → Paints w h (dot px py v) buf (put_inside w h px py v buf)
  put_inside-Paints px py v buf size = elim (Bool-cases (ltb px w && ltb py h)) [
    | inl e ↦ rw e (put-Paints w h px py v buf size (ground arith) (ground arith))
    | inr e ↦ rw e (
        Paints-same w h nothing (dot px py v) buf (some buf) (λ x y lx ly. ground arith)
          (Paints-nothing w h buf size))
  ]

  -- A block of 8 by 8 pixels.
  block-Paints :
      (X Y v : ℕ) (buf : List ℕ)
      → length buf ≡ w * h
      → Paints w h
          (rect X Y 8 8 (λ a b. v))
          buf
          (for_upto 8 (λ dy. for_upto 8 (λ dx. put_inside w h (X + dx) (Y + dy) v)) buf)
  block-Paints X Y v buf size =
      let row = λ (dy : ℕ). layers 8 (λ dx. dot (X + dx) (Y + dy) v) in
      Paints-same w h (layers 8 row) (rect X Y 8 8 (λ a b. v)) buf _
        (λ x y lx ly.
          layers-same 8 row (λ dy. rect X (Y + dy) 8 1 (λ a b. v)) x y
            (λ dy. row_of_dots 8 X (Y + dy) v x y)
          ∙ rows_of_dots 8 X Y 8 v x y)
        (for_upto-Paints w h 8 row _ buf size (λ dy b lt s.
          for_upto-Paints w h 8 (λ dx. dot (X + dx) (Y + dy) v) _ b s
            (λ dx b2 lt2 s2. put_inside-Paints (X + dx) (Y + dy) v b2 s2)))

  draw_glyph-Paints :
      (digit ox oy : ℕ) (rows buf : List ℕ)
      → get_elem? font digit ≡ some rows
      → length buf ≡ w * h
      → Paints w h (glyph rows ox oy) buf (draw_glyph w h digit ox oy buf)
  unfolding draw_glyph
  draw_glyph-Paints digit ox oy rows buf e size =
      let block = λ (ry : ℕ) (rx : ℕ).
        rect (ox + rx * 8) (oy + ry * 8) 8 8 (λ a b. ink (get_or rows ry 0) rx) in
      let row = λ (ry : ℕ). layers 3 (block ry) in
      rw (draw_glyph, e)
        (Paints-same w h (layers 5 row) (glyph rows ox oy) buf _
          (λ x y lx ly.
            layers-same 5 row
              (λ ry. rect ox (oy + ry * 8) 24 8 (λ a b. ink (get_or rows ry 0) (a / 8))) x y
              (λ ry. beside 3 ox (oy + ry * 8) 8 (ink (get_or rows ry 0)) x y)
            ∙ stacked 5 ox oy 24 (λ j a. ink (get_or rows j 0) (a / 8)) x y)
          (for_upto-Paints w h 5 row _ buf size (λ ry b lt s.
            for_upto-Paints w h 3 (block ry) _ b s (λ rx b2 lt2 s2.
              block-Paints (ox + rx * 8) (oy + ry * 8) (ink (get_or rows ry 0) rx) b2 s2))))

-- The paint of the digits, the digit `i` first.
abbrev pub counter_from : ℕ → List ℕ → Paint
counter_from i [] = nothing
counter_from i (d ∷ ds) = over (glyph (get_or font d []) (8 + i * 32) 8) (counter_from (i + 1) ds)

get_elem?-get_or {ℓ} :
    {A : Type ℓ} (xs : List A) (i : ℕ) (d : A)
    → i < length xs
    → get_elem? xs i ≡ some (get_or xs i d)
get_elem?-get_or [] i d h = absurd (omega arith)
get_elem?-get_or (x ∷ xs) zero d h = refl
get_elem?-get_or (x ∷ xs) (suc i) d h = get_elem?-get_or xs i d (omega arith)

font_row : (d : ℕ) → d < 10 → get_elem? font d ≡ some (get_or font d [])
font_row d h = get_elem?-get_or font d [] h

module _ (w h : ℕ) where
  pub draw_digits-Paints :
      (i : ℕ) (ds buf : List ℕ)
      → All IsDigit ds
      → length buf ≡ w * h
      → Paints w h (counter_from i ds) buf (draw_digits w h i ds buf)
  unfolding draw_digits
  draw_digits-Paints i [] buf hs size = Paints-nothing w h buf size
  draw_digits-Paints i (d ∷ ds) buf (lt, hs) size =
      Paints-over w h (glyph (get_or font d []) (8 + i * 32) 8) (counter_from (i + 1) ds) buf _ _
        (draw_glyph-Paints w h d (8 + i * 32) 8 (get_or font d []) buf (font_row d lt) size)
        (λ b s. draw_digits-Paints (i + 1) ds b hs s)

-- The counter at a pixel: digit `k` covers 24 columns from 8 + 32 * k, and 40 rows from 8.
abbrev pub counter : List ℕ → Paint
counter ds x y =
    let k = (x - 8) / 32 in
    if leb 8 x && ltb k (length ds) && ltb ((x - 8) % 32) 24 && leb 8 y && ltb y 48
    then some (ink (get_or (get_or font (get_or ds k 0) []) ((y - 8) / 8) 0) ((x - 8) % 32 / 8))
    else none

-- One digit's paint, in the counter's terms.
glyph_lem :
    (i : ℕ) (rows : List ℕ) (x y : ℕ)
    → glyph rows (8 + i * 32) 8 x y ≡ (
        if leb (8 + i * 32) x && (x - 8) / 32 == i && ltb ((x - 8) % 32) 24 && leb 8 y && ltb y 48
        then some (ink (get_or rows ((y - 8) / 8) 0) ((x - 8) % 32 / 8))
        else none)
glyph_lem i rows x y = elim (Bool-cases (leb (8 + i * 32) x && (x - 8) / 32 == i)) [
  | inl e ↦
      let same : x - (8 + i * 32) ≡ (x - 8) % 32 = ground arith in
      let a : leb (8 + i * 32) x ≡ true = ground arith in
      let b : ((x - 8) / 32 == i) ≡ true = ground arith in
      let c : ltb x (8 + i * 32 + 24) ≡ ltb ((x - 8) % 32) 24 = ground arith in
      rw (a, b, c, same) refl
  | inr e ↦ ground arith
]

-- The counter from the digit `i` on, in one test.
abbrev placed : ℕ → List ℕ → ℕ → ℕ → Option ℕ
placed i ds x y =
    let k = (x - 8) / 32 in
    if leb (8 + i * 32) x && ltb k (i + length ds) && ltb ((x - 8) % 32) 24 && leb 8 y && ltb y 48
    then some
        (ink (get_or (get_or font (get_or ds (k - i) 0) []) ((y - 8) / 8) 0) ((x - 8) % 32 / 8))
    else none

placed_below : (i : ℕ) (ds : List ℕ) (x y : ℕ) → (x - 8) / 32 < i → placed i ds x y ≡ none
placed_below i ds x y h = ground arith

over_none : (a b : Paint) (x y : ℕ) → a x y ≡ none → over a b x y ≡ b x y
over_none a b x y e = ground arith

counter_from_lem : (i : ℕ) (ds : List ℕ) (x y : ℕ) → counter_from i ds x y ≡ placed i ds x y
counter_from_lem i [] x y = ground arith
counter_from_lem i (d ∷ ds) x y =
    let ih = counter_from_lem (i + 1) ds x y in
    let head = glyph_lem i (get_or font d []) x y in
    let k = (x - 8) / 32 in
    elim (Bool-cases (k == i)) [
      | inl e ↦
          let z : k - i ≡ 0 = ground arith in
          let rest : counter_from (i + 1) ds x y ≡ none = ih ∙ ground arith in
          let first : get_or (d ∷ ds) (k - i) 0 ≡ d = ap (λ j. get_or (d ∷ ds) j 0) z in
          rw (over, rest) (head ∙ ground arith)
      | inr e ↦
          over_none (glyph (get_or font d []) (8 + i * 32) 8) (counter_from (i + 1) ds) x y
            (head ∙ ground arith)
          ∙ ih
          ∙ elim (Bool-cases (ltb i k)) [
            | inl above ↦
                let z : k - i ≡ suc (k - (i + 1)) = ground arith in
                let next : get_or (d ∷ ds) (k - i) 0 ≡ get_or ds (k - (i + 1)) 0 =
                  ap (λ j. get_or (d ∷ ds) j 0) z in
                ground arith
            | inr below ↦
                placed_below (i + 1) ds x y (ground arith)
                ∙ sym (placed_below i (d ∷ ds) x y (ground arith))
          ]
    ]

pub counter_from-counter : (ds : List ℕ) (x y : ℕ) → counter_from 0 ds x y ≡ counter ds x y
counter_from-counter ds x y =
    let k = (x - 8) / 32 in
    let a : k - 0 ≡ k = omega arith in
    let b : 0 + length ds ≡ length ds = omega arith in
    counter_from_lem 0 ds x y ∙ rw (placed, a, b) refl
