-- ===== src/Capture/Frames.antt =====
-- loom-capture/src/frame.rs: the planes of a frame, and that they are all of it.
use loom_host.Base.{ℕ, zero, suc, ◌+◌, ◌*◌, ◌/◌, ◌%◌, ◌<◌, leb}
use loom_host.Base.{◌≡◌, refl, ap, sym, ◌∙◌, arith, true, some}
use loom_host.Base.{
  List, [], ◌∷◌, ◌++◌, length, take, drop, length-append, length-take, length-drop,
}
use loom_host.Base.{length-replicate, take-append, drop-append, get_elem?, get_or}
use loom_host.Capture.{I420Buffer, new, y_len, uv_len, split_at, planes, with_planes}

-- Even sides, and a byte for each sample of the three planes.
pub record IsFrame (b : I420Buffer) : Type 0 where
  pub even_width : b.width % 2 ≡ 0
  pub even_height : b.height % 2 ≡ 0
  pub size : length b.pixels ≡ b.width * b.height + 2 * (b.width / 2 * (b.height / 2))

pub new-IsFrame : (w h : ℕ) → IsFrame (new w h)
unfolding new
new-IsFrame w h = record {
  even_width = omega arith;
  even_height = omega arith;
  size = length-replicate _ 0;
}

-- The planes of a frame have the sizes that its dimensions tell.
pub record Splits (b : I420Buffer) : Type 0 where
  pub y : List ℕ
  pub u : List ℕ
  pub v : List ℕ
  pub splits : planes b ≡ some (y, u, v)
  pub luma : length y ≡ b.width * b.height
  pub blue : length u ≡ b.width / 2 * (b.height / 2)
  pub red : length v ≡ b.width / 2 * (b.height / 2)

pub planes-Splits : (b : I420Buffer) → IsFrame b → Splits b
unfolding planes y_len uv_len
planes-Splits b f =
    let n = b.width * b.height in
    let m = b.width / 2 * (b.height / 2) in
    let rest = drop n b.pixels in
    let size = f.size in
    let whole : leb n (length b.pixels) ≡ true = ground arith in
    let left : length rest ≡ 2 * m = length-drop n b.pixels ∙ omega arith in
    let half : leb m (length rest) ≡ true = ground arith in
    record {
      y = take n b.pixels;
      u = take m rest;
      v = drop m rest;
      splits = rw (planes, whole, half) refl;
      luma = length-take n b.pixels ∙ omega arith;
      blue = length-take m rest ∙ omega arith;
      red = length-drop m rest ∙ omega arith;
    }

split_at-append : (xs ys : List ℕ) (n : ℕ) → length xs ≡ n → split_at n (xs ++ ys) ≡ some (xs, ys)
split_at-append xs ys n e =
    let total = length-append xs ys in
    let enough : leb n (length (xs ++ ys)) ≡ true = ground arith in
    let front : take n (xs ++ ys) ≡ xs = ap (λ k. take k (xs ++ ys)) (sym e) ∙ take-append xs ys in
    let back : drop n (xs ++ ys) ≡ ys = ap (λ k. drop k (xs ++ ys)) (sym e) ∙ drop-append xs ys in
    rw (split_at, enough, front, back) refl

-- A frame that is put together from planes of the right sizes splits into them.
pub planes-with_planes :
    (b : I420Buffer) (y u v : List ℕ)
    → length y ≡ b.width * b.height
    → length u ≡ b.width / 2 * (b.height / 2)
    → length v ≡ b.width / 2 * (b.height / 2)
    → planes (with_planes b (y, u, v)) ≡ some (y, u, v)
unfolding planes y_len uv_len
planes-with_planes b y u v sy su sv =
    rw
      (
        planes,
        split_at-append y (u ++ v) (b.width * b.height) sy,
        split_at-append u v (b.width / 2 * (b.height / 2)) su,
      )
      refl

pub with_planes-IsFrame :
    (b : I420Buffer) (y u v : List ℕ)
    → IsFrame b
    → length y ≡ b.width * b.height
    → length u ≡ b.width / 2 * (b.height / 2)
    → length v ≡ b.width / 2 * (b.height / 2)
    → IsFrame (with_planes b (y, u, v))
with_planes-IsFrame b y u v f sy su sv = record {
  even_width = f.even_width;
  even_height = f.even_height;
  size = omega (arith, length-append y (u ++ v), length-append u v);
}

-- Reading from the middle of a list.
pub get_elem?-take-drop :
    (k n c : ℕ) (xs : List ℕ)
    → c < n
    → k + c < length xs
    → get_elem? (take n (drop k xs)) c ≡ some (get_or xs (k + c) 0)
get_elem?-take-drop zero zero c xs h l = absurd (omega arith)
get_elem?-take-drop zero (suc n) c [] h l = absurd (omega arith)
get_elem?-take-drop zero (suc n) zero (x ∷ xs) h l = refl
get_elem?-take-drop zero (suc n) (suc c) (x ∷ xs) h l =
    get_elem?-take-drop zero n c xs (omega arith) (omega arith)
    ∙ ap (λ j. some (get_or (x ∷ xs) j 0)) {x = suc (0 + c)} (omega arith)
get_elem?-take-drop (suc k) n c [] h l = absurd (omega arith)
get_elem?-take-drop (suc k) n c (x ∷ xs) h l =
    get_elem?-take-drop k n c xs h (omega arith)
    ∙ ap (λ j. some (get_or (x ∷ xs) j 0)) {x = suc (k + c)} (omega arith)
