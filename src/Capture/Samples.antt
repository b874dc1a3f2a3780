-- ===== src/Capture/Samples.antt =====
-- loom-capture/src/sck.rs: the slot shows the latest image that was handed over, and a display that is picked is
-- the one that was asked for.
use loom_host.Base.{◌&&◌, ℕ, ◌*◌, ◌/◌, if◌then◌else◌, ◌≡◌, refl, sym, ◌∙◌}
use loom_host.Base.{
  subst, arith, Bool, true, false, Option, none, some, List, [], ◌∷◌, All, Bool-cases, inl, inr,
}
use loom_host.Base.Grid.{or_panic}
use loom_host.Capture.{I420Buffer, with_planes}
use loom_host.Capture.Nv12.{split_nv12, HasRows, split_nv12-Deinterleaves}
use loom_host.Capture.Stream.{frame_or_new}
use loom_host.Capture.Sound.{FitsSize}
use loom_host.Capture.Publish.{frame_or_new-FitsSize}
use loom_host.Capture.Screen.{PixelBuffer, Output, publish, did_output, new_output, deliver}

abbrev pub Sample : Type 0
Sample = Bool × Option PixelBuffer

-- The image that a sample brings, if it brings one that can be read.
abbrev pub newer : Sample → Option PixelBuffer → Option PixelBuffer
newer (false, sample) last = last
newer (true, none) last = last
newer (true, some px) last = if px.is_420v then (if px.locks then some px else last) else last

abbrev pub latest : List Sample → Option PixelBuffer → Option PixelBuffer
latest [] last = last
latest (s ∷ ss) last = latest ss (newer s last)

-- The planes of an image have addresses, and their last rows are whole.
pub record IsWhole (w h : ℕ) (px : PixelBuffer) : Type 0 where
  pub y : List ℕ
  pub uv : List ℕ
  pub has_y : px.y.bytes ≡ some y
  pub has_uv : px.uv.bytes ≡ some uv
  pub rows : HasRows y px.y.stride (w / 2 * 2) (h / 2 * 2)
  pub pairs : HasRows uv px.uv.stride (w / 2 * 2 / 2 * 2) (h / 2 * 2 / 2)

-- An image that can be read is whole; of the other samples nothing is asked.
abbrev pub BringsWhole : ℕ → ℕ → Sample → Type 0
BringsWhole w h (true, some px) =
    if◌then◌else◌ {A = Type 0} (px.is_420v && px.locks) (IsWhole w h px) Unit
BringsWhole w h sample = Unit

-- A frame that is the split of an image.
pub record IsOf (w h : ℕ) (px : PixelBuffer) (slot : Option I420Buffer) : Type 0 where
  pub frame : I420Buffer
  pub held : slot ≡ some frame
  pub fits : FitsSize w h frame
  pub scratch : I420Buffer
  pub scratch_fits : FitsSize w h scratch
  pub split :
      or_panic px.y.bytes
        (λ y. or_panic px.uv.bytes (λ uv. split_nv12 y px.y.stride uv px.uv.stride scratch))
      ≡ some frame

abbrev pub ShowsImage : ℕ → ℕ → Option PixelBuffer → Option I420Buffer → Type 0
ShowsImage w h none slot = slot ≡ none
ShowsImage w h (some px) slot = IsOf w h px slot

pub record Shows (w h : ℕ) (last : Option PixelBuffer) (o : Output) : Type 0 where
  pub size : o.size ≡ (w, h)
  pub spare : (f : I420Buffer) → o.spare ≡ some f → FitsSize w h f
  pub shown : ShowsImage w h last o.slot

module _ (w h : ℕ) where
  slot-FitsSize :
      (last : Option PixelBuffer) (o : Output)
      → ShowsImage w h last o.slot
      → (f : I420Buffer) → o.slot ≡ some f
      → FitsSize w h f
  slot-FitsSize none o s f e = let bad : none ≡ some f = sym s ∙ e in ground arith
  slot-FitsSize (some px) o s f e =
      let held = s.held in let same : s.frame ≡ f = ground arith in subst (FitsSize w h) same s.fits

  -- What a sample leads to.
  Steps : Sample → Option PixelBuffer → Output → Type 0
  Steps s last o = (o' : Output) × (did_output s.0 s.1 o ≡ some o') × Shows w h (newer s last) o'

  taken-Shows :
      (last : Option PixelBuffer) (o : Output)
      → Shows w h last o
      → Shows w h last (record o { spare = none })
  taken-Shows last o s = record { size = s.size; spare = λ f e. ground arith; shown = s.shown }

  image-Steps :
      (px : PixelBuffer) (last : Option PixelBuffer) (o : Output)
      → px.is_420v ≡ true
      → px.locks ≡ true
      → IsWhole w h px
      → Shows w h last o
      → (o' : Output) × (publish (some px) o ≡ some o') × Shows w h (some px) o'
  unfolding publish
  image-Steps px last o is_420v locks whole s =
      let has_y = whole.has_y in
      let has_uv = whole.has_uv in
      let fits = frame_or_new-FitsSize w h o.spare s.spare in
      let dst = frame_or_new o.spare (w, h) in
      let wide = fits.width in
      let high = fits.height in
      let d =
        split_nv12-Deinterleaves whole.y px.y.stride whole.uv px.uv.stride dst fits.frame
          (rw (wide, high) whole.rows) (rw (wide, high) whole.pairs) in
      let frame = with_planes dst (d.y, d.u, d.v) in
      let frame_fits : FitsSize w h frame = record {
        frame = d.frame;
        width = wide;
        height = high;
      } in
      let size = s.size in
      let returns = d.returns in
      (
        record o { slot = some frame; spare = o.slot },
        rw (publish, is_420v, locks, has_y, has_uv, size, returns) refl,
        record {
          size = s.size;
          spare = slot-FitsSize last o s.shown;
          shown = record {
            frame = frame;
            held = refl;
            fits = frame_fits;
            scratch = dst;
            scratch_fits = fits;
            split = rw (has_y, has_uv) returns;
          };
        },
      )

  sample-Steps :
      (smp : Sample) (last : Option PixelBuffer) (o : Output)
      → BringsWhole w h smp
      → Shows w h last o
      → Steps smp last o
  unfolding Steps did_output publish
  sample-Steps (false, sample) last o whole s = (o, refl, s)
  sample-Steps (true, none) last o whole s = (o, refl, s)
  sample-Steps (true, some px) last o whole s = elim (Bool-cases px.is_420v) [
    | inl is_420v ↦ elim (Bool-cases px.locks) [
      | inl locks ↦
          let both : (px.is_420v && px.locks) ≡ true = ground arith in
          let whole' : IsWhole w h px =
            subst (λ b. if◌then◌else◌ {A = Type 0} b (IsWhole w h px) Unit) both whole in
          let (o', e, k) = image-Steps px last o is_420v locks whole' s in
          (o', e, simp (is_420v, locks) k)
      | inr fails ↦ (
        record o { spare = none },
        rw (is_420v, fails) refl,
        rw (is_420v, fails) (taken-Shows last o s),
      )
    ]
    | inr other ↦ (record o { spare = none }, rw other refl, rw other (taken-Shows last o s))
  ]

  deliver-ShowsFrom :
      (ss : List Sample) (last : Option PixelBuffer) (o : Output)
      → All (BringsWhole w h) ss
      → Shows w h last o
      → (o' : Output) × (deliver ss o ≡ some o') × Shows w h (latest ss last) o'
  unfolding deliver Steps
  deliver-ShowsFrom [] last o whole s = (o, refl, s)
  deliver-ShowsFrom (smp ∷ ss) last o (now, later) s =
      let (m, d, k) = sample-Steps smp last o now s in
      let (o', e, t) = deliver-ShowsFrom ss (newer smp last) m later k in (o', rw d e, t)

-- The output after some samples, from a new one.
pub record Delivered (w h : ℕ) (ss : List Sample) : Type 0 where
  pub end : Output
  pub returns : deliver ss (new_output (w, h)) ≡ some end
  pub shows : Shows w h (latest ss none) end

-- Samples whose readable images (of the screen, in `420v`, and locked) have planes with addresses and whole last rows
-- are handled without a panic, in whatever order they come with samples of other kinds and images that cannot be read, of
-- which nothing is asked: the slot then is empty if no image could be read, and else holds the split of the latest one
-- that could; it and the spare frame have the size of the stream.
pub deliver-Delivered : (w h : ℕ) (ss : List Sample) → All (BringsWhole w h) ss → Delivered w h ss
deliver-Delivered w h ss whole =
    let (o, e, s) =
      deliver-ShowsFrom w h ss none (new_output (w, h)) whole
        (record { size = refl; spare = λ f e. ground arith; shown = refl }) in
    record { end = o; returns = e; shows = s }

-- An image whose luma has no address is published all the same: what is shown as newest is the spare frame, which was
-- shown before the present one.
pub publish_no_address :
    (px : PixelBuffer) (old : I420Buffer) (o : Output)
    → px.is_420v ≡ true
    → px.locks ≡ true
    → px.y.bytes ≡ none
    → o.spare ≡ some old
    → publish (some px) o ≡ some (record o { slot = some old; spare = o.slot })
unfolding publish
publish_no_address px old o is_420v locks missing spare =
    rw (publish, is_420v, locks, missing, spare) refl
