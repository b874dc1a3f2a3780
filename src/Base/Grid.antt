-- ===== src/Base/Grid.antt =====
-- Planes of pixels as flat lists, row by row, and loops that paint them. A write out of range, and
-- any other panic, is `none`.
use Prim.Native.Nat.{ℕ, zero, suc, ◌+◌, ◌*◌, ◌/◌, ◌%◌, ◌≤◌, ◌<◌}
use mathlib.Core.Path.{◌≡◌, refl, ap, sym, ◌∙◌, subst}
use mathlib.Core.Logic.{◌≢◌, inl, inr}
use mathlib.Core.Bool.{◌&&◌}
use mathlib.Core.List.{List, [], ◌∷◌}
use mathlib.Core.Option.{Option, none, some}
use native.Mathlib.Omega.{arith}
use native.Mathlib.Nat.{div-add-mod, mod-lt}
use loom_host.Base.Tests.{ltb, ◌==◌, if◌then◌else◌, Bool-cases, Option-cases}
use loom_host.Base.Lists.{length, set, get_or, length-set}

abbrev pub or_panic {ℓ κ} : {A : Type ℓ} {B : Type κ} → Option A → (A → Option B) → Option B
or_panic none f = none
or_panic (some a) f = f a

-- `for i in 0..n`
abbrev pub for_upto {ℓ} : {A : Type ℓ} → ℕ → (ℕ → A → Option A) → A → Option A
for_upto zero body a = some a
for_upto (suc n) body a = or_panic (for_upto n body a) (body n)

-- `buf[i] = v`
abbrev pub put : ℕ → ℕ → List ℕ → Option (List ℕ)
put i v buf = if ltb i (length buf) then some (set buf i v) else none

-- Writes at one index of two planes.
abbrev pub put_both : ℕ → ℕ → ℕ → List ℕ × List ℕ → Option (List ℕ × List ℕ)
put_both i a b (u, v) = or_panic (put i a u) (λ u'. or_panic (put i b v) (λ v'. some (u', v')))

pub get_or-set_self : (xs : List ℕ) (i v : ℕ) → i < length xs → get_or (set xs i v) i 0 ≡ v
get_or-set_self [] i v h = absurd (omega arith)
get_or-set_self (x ∷ xs) zero v h = refl
get_or-set_self (x ∷ xs) (suc i) v h = get_or-set_self xs i v (omega arith)

pub get_or-set_ne : (xs : List ℕ) (i j v : ℕ) → i ≢ j → get_or (set xs i v) j 0 ≡ get_or xs j 0
get_or-set_ne [] i j v h = refl
get_or-set_ne (x ∷ xs) zero zero v h = absurd (h refl)
get_or-set_ne (x ∷ xs) zero (suc j) v h = refl
get_or-set_ne (x ∷ xs) (suc i) zero v h = refl
get_or-set_ne (x ∷ xs) (suc i) (suc j) v h = get_or-set_ne xs i j v (λ e. h (ap suc e))

-- A pixel of a plane of width `w`.
unfoldable pub at : ℕ → List ℕ → ℕ → ℕ → ℕ
at w buf x y = get_or buf (y * w + x) 0

pub index-lt : (w h x y : ℕ) → x < w → y < h → y * w + x < w * h
index-lt w h x y p q = grind arith

index-lt-index : (w x y x' y' : ℕ) → x < w → y < y' → y * w + x < y' * w + x'
index-lt-index w x y x' y' p q = grind arith

index_inj : (w x y x' y' : ℕ) → x < w → x' < w → y * w + x ≡ y' * w + x' → (x ≡ x') × (y ≡ y')
index_inj w x y x' y' p q e = ground (arith, index-lt-index w x y x' y', index-lt-index w x' y' x y)

-- What a step paints: a value for some of the pixels.
abbrev pub Paint : Type 0
Paint = ℕ → ℕ → Option ℕ

abbrev pub or_keep : Option ℕ → ℕ → ℕ
or_keep none old = old
or_keep (some v) old = v

-- The later paint shows.
abbrev pub over : Paint → Paint → Paint
over below above x y = elim (above x y) [ none ↦ below x y | some v ↦ some v ]

abbrev pub nothing : Paint
nothing x y = none

abbrev pub dot : ℕ → ℕ → ℕ → Paint
dot px py v x y = if x == px && y == py then some v else none

abbrev pub layers : ℕ → (ℕ → Paint) → Paint
layers zero p = nothing
layers (suc n) p = over (layers n p) (p n)

module _ (w h : ℕ) where
  -- `r` is a normal end that paints `p` and keeps the other pixels.
  pub record Paints (p : Paint) (buf : List ℕ) (r : Option (List ℕ)) : Type 0 where
    pub out : List ℕ
    pub returns : r ≡ some out
    pub size : length out ≡ w * h
    pub pixels : (x y : ℕ) → x < w → y < h → at w out x y ≡ or_keep (p x y) (at w buf x y)

  pub Paints-nothing : (buf : List ℕ) → length buf ≡ w * h → Paints nothing buf (some buf)
  Paints-nothing buf size = record {
    out = buf;
    returns = refl;
    size = size;
    pixels = λ x y p q. refl;
  }

  or_keep-over :
      (a b : Paint) (x y old : ℕ)
      → or_keep (b x y) (or_keep (a x y) old) ≡ or_keep (over a b x y) old
  or_keep-over a b x y old =
      elim (b x y)
        as (λ o.
          or_keep o (or_keep (a x y) old)
          ≡ or_keep (elim o as (λ _. Option ℕ) [ none ↦ a x y | some v ↦ some v ]) old) [
            | none ↦ refl
            | some v ↦ refl
          ]

  -- One step after another.
  pub Paints-over :
      (a b : Paint) (buf : List ℕ) (r : Option (List ℕ)) (body : List ℕ → Option (List ℕ))
      → Paints a buf r
      → ((buf' : List ℕ) → length buf' ≡ w * h → Paints b buf' (body buf'))
      → Paints (over a b) buf (or_panic r body)
  Paints-over a b buf r body first next =
      let then_ = next first.out first.size in
      record {
        out = then_.out;
        returns = rw first.returns then_.returns;
        size = then_.size;
        pixels = λ x y p q.
            then_.pixels x y p q
            ∙ ap (or_keep (b x y)) (first.pixels x y p q)
            ∙ or_keep-over a b x y (at w buf x y);
      }

  pub put-Paints :
      (px py v : ℕ) (buf : List ℕ)
      → length buf ≡ w * h
      → px < w
      → py < h
      → Paints (dot px py v) buf (put (py * w + px) v buf)
  unfolding at
  put-Paints px py v buf size p q =
      let i = py * w + px in
      let inside : i < length buf = rw size (index-lt w h px py p q) in
      record {
        out = set buf i v;
        returns = ground arith;
        size = length-set buf i v ∙ size;
        pixels = λ x y p' q'. elim (Bool-cases (x == px && y == py)) [
          | inl hit ↦
              let ex : x ≡ px = ground arith in
              let ey : y ≡ py = ground arith in
              rw hit (rw (ex, ey) (get_or-set_self buf i v inside))
          | inr miss ↦ rw miss (
              get_or-set_ne buf i (y * w + x) v
                (λ e. let (ex, ey) = index_inj w px py x y p p' e in ground arith))
        ];
      }

  -- A loop whose rounds paint.
  pub for_upto-Paints :
      (n : ℕ) (p : ℕ → Paint) (body : ℕ → List ℕ → Option (List ℕ)) (buf : List ℕ)
      → length buf ≡ w * h
      → ((i : ℕ) (buf' : List ℕ) → i < n → length buf' ≡ w * h → Paints (p i) buf' (body i buf'))
      → Paints (layers n p) buf (for_upto n body buf)
  for_upto-Paints zero p body buf size step = Paints-nothing buf size
  for_upto-Paints (suc n) p body buf size step =
      Paints-over (layers n p) (p n) buf (for_upto n body buf) (body n)
        (for_upto-Paints n p body buf size (λ i b lt s. step i b (omega arith) s))
        (λ b s. step n b (omega arith) s)

-- Layers of which one alone paints a pixel.
pub layers_one :
    (n k : ℕ) (p : ℕ → Paint) (x y : ℕ)
    → ((i : ℕ) → i ≢ k → p i x y ≡ none)
    → layers n p x y ≡ (if ltb k n then p k x y else none)
layers_one zero k p x y others = ground arith
layers_one (suc n) k p x y others =
    let ih = layers_one n k p x y others in
    elim (Bool-cases (n == k)) [
      | inl e ↦
          let same : n ≡ k = ground arith in
          let top : p n x y ≡ p k x y = ap (λ i. p i x y) same in ground arith
      | inr ne ↦ let quiet : p n x y ≡ none = others n (λ e. ground arith) in ground arith
    ]

-- A loop over two planes at once, whose rounds keep a property of each.
pub for_upto-pair_kept {ℓ} :
    {A : Type ℓ} (P : A → Type 0) (n : ℕ) (f g : ℕ → A → Option A) (b : ℕ → A × A → Option (A × A))
    (u v u' v' : A)
    → P u
    → P v
    → ((i : ℕ) (s s' : A) → i < n → P s → f i s ≡ some s' → P s')
    → ((i : ℕ) (s s' : A) → i < n → P s → g i s ≡ some s' → P s')
    → ((i : ℕ) (s t s' t' : A)
        → i < n
        → P s
        → P t
        → f i s ≡ some s'
        → g i t ≡ some t'
        → b i (s, t) ≡ some (s', t'))
    → for_upto n f u ≡ some u'
    → for_upto n g v ≡ some v'
    → (for_upto n b (u, v) ≡ some (u', v')) × P u' × P v'
for_upto-pair_kept P zero f g b u v u' v' pu pv kf kg step p q =
    let eu : u ≡ u' = cc in let ev : v ≡ v' = cc in (cc, subst P eu pu, subst P ev pv)
for_upto-pair_kept P (suc n) f g b u v u' v' pu pv kf kg step p q =
    elim (Option-cases (for_upto n f u)) [
      | inl e ↦ cc
      | inr (s, e) ↦ elim (Option-cases (for_upto n g v)) [
        | inl k ↦ cc
        | inr (t, k) ↦
            let (ih, ps, pt) =
              for_upto-pair_kept P n f g b u v s t pu pv (λ i s1 s2 lt. kf i s1 s2 (omega arith))
                (λ i s1 s2 lt. kg i s1 s2 (omega arith))
                (λ i s1 t1 s2 t2 lt. step i s1 t1 s2 t2 (omega arith)) e k in
            let fs = sym (ap (λ o. or_panic o (f n)) e) ∙ p in
            let gt = sym (ap (λ o. or_panic o (g n)) k) ∙ q in
            (
              rw (or_panic, ih) (step n s t u' v' (omega arith) ps pt fs gt),
              kf n s u' (omega arith) ps fs,
              kg n t v' (omega arith) pt gt,
            )
      ]
    ]

pub for_upto-pair {ℓ} :
    {A : Type ℓ} (n : ℕ) (f g : ℕ → A → Option A) (b : ℕ → A × A → Option (A × A)) (u v u' v' : A)
    → ((i : ℕ) (s t s' t' : A)
        → i < n
        → f i s ≡ some s'
        → g i t ≡ some t'
        → b i (s, t) ≡ some (s', t'))
    → for_upto n f u ≡ some u'
    → for_upto n g v ≡ some v'
    → for_upto n b (u, v) ≡ some (u', v')
for_upto-pair n f g b u v u' v' step p q =
    (for_upto-pair_kept (λ _. Unit) n f g b u v u' v' tt tt (λ i s s' lt k e. tt)
      (λ i s s' lt k e. tt) (λ i s t s' t' lt k l. step i s t s' t' lt) p q).0

-- A value for each pixel.
abbrev pub full : (ℕ → ℕ → ℕ) → Paint
full g x y = some (g x y)

-- Painting every column of every row paints every pixel.
pub layers-full :
    (w h : ℕ) (g : ℕ → ℕ → ℕ) (x y : ℕ)
    → x < w
    → y < h
    → layers h (λ py. layers w (λ px. dot px py (g px py))) x y ≡ some (g x y)
layers-full w h g x y p q =
    let row = λ (py : ℕ). layers w (λ px. dot px py (g px py)) in
    let column : (py : ℕ) → row py x y ≡ (if ltb x w then dot x py (g x py) x y else none) =
      λ py. layers_one w x (λ px. dot px py (g px py)) x y (λ i ne. ground arith) in
    layers_one h y row x y (λ i ne. column i ∙ ground arith) ∙ rw (column y) (ground arith)

pub layers-same :
    (n : ℕ) (p q : ℕ → Paint) (x y : ℕ)
    → ((i : ℕ) → p i x y ≡ q i x y)
    → layers n p x y ≡ layers n q x y
layers-same zero p q x y h = refl
layers-same (suc n) p q x y h = let ih = layers-same n p q x y h in let top = h n in ground arith

pub layers-none :
    (n : ℕ) (p : ℕ → Paint) (x y : ℕ) → ((i : ℕ) → i < n → p i x y ≡ none) → layers n p x y ≡ none
layers-none zero p x y h = refl
layers-none (suc n) p x y h =
    let ih = layers-none n p x y (λ i lt. h i (omega arith)) in
    let top = h n (omega arith) in ground arith

module _ (w h : ℕ) where
  -- Paints that agree on the plane.
  pub Paints-same :
      (p q : Paint) (buf : List ℕ) (r : Option (List ℕ))
      → ((x y : ℕ) → x < w → y < h → p x y ≡ q x y)
      → Paints w h p buf r
      → Paints w h q buf r
  Paints-same p q buf r same a = record {
    out = a.out;
    returns = a.returns;
    size = a.size;
    pixels = λ x y lx ly. a.pixels x y lx ly ∙ ap (λ o. or_keep o (at w buf x y)) (same x y lx ly);
  }

module _ (w h : ℕ) where
  -- A plane that is filled, value by value.
  pub fill-Paints :
      (g : ℕ → ℕ → ℕ) (buf : List ℕ)
      → length buf ≡ w * h
      → Paints w h
          (full g)
          buf
          (for_upto h (λ py. for_upto w (λ px. put (py * w + px) (g px py))) buf)
  fill-Paints g buf size =
      let row = λ (py : ℕ). layers w (λ px. dot px py (g px py)) in
      Paints-same w h (layers h row) (full g) buf _ (λ x y lx ly. layers-full w h g x y lx ly)
        (for_upto-Paints w h h row _ buf size (λ py b ly s.
          for_upto-Paints w h w (λ px. dot px py (g px py)) _ b s
            (λ px b2 lx s2. put-Paints w h px py (g px py) b2 s2 lx ly)))

get_or_ext :
    (xs ys : List ℕ)
    → length xs ≡ length ys
    → ((i : ℕ) → i < length xs → get_or xs i 0 ≡ get_or ys i 0)
    → xs ≡ ys
get_or_ext [] [] e h = refl
get_or_ext [] (y ∷ ys) e h = absurd (omega arith)
get_or_ext (x ∷ xs) [] e h = absurd (omega arith)
get_or_ext (x ∷ xs) (y ∷ ys) e h =
    let head = h 0 (omega arith) in
    let rest = get_or_ext xs ys (omega arith) (λ i lt. h (suc i) (omega arith)) in cc

row_below : (w h q : ℕ) → w * q < w * h → q < h
row_below w h q lt = elim (Bool-cases (ltb q h)) [
  | inl e ↦ ground arith
  | inr e ↦
      let le : h ≤ q = ground arith in
      let more : w * h ≤ w * q = grind arith in absurd (omega arith)
]

-- Every index is that of a position.
position : (w h i : ℕ) → i < w * h → (x : ℕ) × (y : ℕ) × (x < w) × (y < h) × (y * w + x ≡ i)
position w h i lt =
    let wide : 0 < w =
      elim w as (λ k. i < k * h → 0 < k) [
        | zero ↦ λ b. absurd (omega arith)
        | suc k ↦ λ b. omega arith
      ]
        lt in
    let split = div-add-mod i w in
    let left = mod-lt i wide in
    let low : w * (i / w) < w * h = omega (arith, split, left) in
    (i % w, i / w, left, row_below w h (i / w) low, grind (arith, split))

-- Planes of one size that agree on every pixel are the same.
pub at_ext :
    (w h : ℕ) (a b : List ℕ)
    → length a ≡ w * h
    → length b ≡ w * h
    → ((x y : ℕ) → x < w → y < h → at w a x y ≡ at w b x y)
    → a ≡ b
unfolding at
at_ext w h a b sa sb same = get_or_ext a b (sa ∙ sym sb) (λ i lt.
    let (x, y, lx, ly, e) = position w h i (subst (λ k. i < k) sa lt) in
    ap (λ j. get_or a j 0) (sym e) ∙ same x y lx ly ∙ ap (λ j. get_or b j 0) e)
