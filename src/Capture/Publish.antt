-- ===== src/Capture/Publish.antt =====
-- loom-capture/src/stream.rs: what `on_process` makes of a buffer.
use loom_host.Base.{ℕ, ◌+◌, ◌-◌, ◌*◌, ◌/◌, ◌%◌, ◌^◌, ◌≤◌, ◌<◌, ltb, leb, ◌==◌, ◌||◌}
use loom_host.Base.{
  if◌then◌else◌, ◌≡◌, refl, ap, sym, ◌∙◌, subst, arith, Bool, true, false, Bool-cases,
}
use loom_host.Base.{inl, inr, Option, none, some, List, [], ◌∷◌, length}
use loom_host.Base.{length-drop, drop}
use mathlib.Core.Option.{some-injective}
use loom_host.Capture.{I420Buffer, PixelFormat, slice_from, to_i420, with_planes}
use loom_host.Capture.Convert.{IsLayout, Holds, to_i420-Converts, to_i420_short}
use loom_host.Capture.Stream.{
  Loop, as_usize, Chunk, frame_or_new, publish, convert_bytes, on_bytes, on_process,
}
use loom_host.Capture.Sound.{FitsSize, new-FitsSize, IsSound}

-- What `on_process` drops by its guard.
abbrev pub is_dropped : Chunk → List ℕ → Bool
is_dropped c bytes =
    as_usize c.stride == 0 || ltb (length bytes) ((c.offset + as_usize c.stride) % 2 ^ 64)

-- The first data of a buffer holds a whole frame, unless the guard of `on_process` drops it.
abbrev pub HoldsFrame : ℕ → ℕ → Chunk → Type 0
HoldsFrame w h c =
    (bytes : List ℕ)
    → c.bytes ≡ some bytes
    → is_dropped c bytes ≡ false
    → (c.offset ≤ length bytes)
      × Holds (drop c.offset bytes) (as_usize c.stride) (w / 2 * 2) (h / 2 * 2)

module _ (w h : ℕ) where
  pub frame_or_new-FitsSize :
      (o : Option I420Buffer)
      → ((f : I420Buffer) → o ≡ some f → FitsSize w h f)
      → FitsSize w h (frame_or_new o (w, h))
  frame_or_new-FitsSize none fits = new-FitsSize w h
  frame_or_new-FitsSize (some f) fits = fits f refl

  pub publish-IsSound :
      (f : I420Buffer) (l : Loop) → FitsSize w h f → IsSound w h l → IsSound w h (publish f l)
  publish-IsSound f l fits s = record {
    expected = s.expected;
    unsent = s.unsent;
    once = s.once;
    known = s.known;
    layout = s.layout;
    slot = λ g e. let same : f ≡ g = ground arith in subst (FitsSize w h) same fits;
    spare = s.slot;
  }

  -- What the conversion of a whole frame publishes.
  pub record Publishes (src : List ℕ) (stride : ℕ) (fmt : PixelFormat) (l : Loop) (r : Option Loop)
      : Type 0 where
    pub frame : I420Buffer
    pub returns : r ≡ some (publish frame l)
    pub converted : to_i420 src stride fmt (frame_or_new l.ud.spare (w, h)) ≡ some frame
    pub fits : FitsSize w h frame

  pub convert-Publishes :
      (fmt : PixelFormat) (bytes : List ℕ) (offset stride : ℕ) (l : Loop)
      → IsSound w h l
      → IsLayout fmt
      → offset ≤ length bytes
      → Holds (drop offset bytes) stride (w / 2 * 2) (h / 2 * 2)
      → Publishes (drop offset bytes) stride fmt l (convert_bytes (some fmt) bytes offset stride l)
  convert-Publishes fmt bytes offset stride l s layout inside holds =
      let fits = frame_or_new-FitsSize l.ud.spare s.spare in
      let dst = frame_or_new l.ud.spare (w, h) in
      let src = drop offset bytes in
      let wide = fits.width in
      let high = fits.height in
      let holds' : Holds src stride dst.width dst.height = rw (wide, high) holds in
      let c = to_i420-Converts src stride fmt dst fits.frame layout holds' in
      let returns = c.returns in
      let expected = s.expected in
      let from : slice_from offset bytes ≡ some src = ground arith in
      record {
        frame = with_planes dst (c.y, c.u, c.v);
        returns = rw (convert_bytes, from, expected, returns) refl;
        converted = returns;
        fits = record { frame = c.frame; width = wide; height = high };
      }

  pub convert_short :
      (fmt : PixelFormat) (bytes : List ℕ) (offset stride : ℕ) (l : Loop)
      → 2 ≤ w
      → 2 ≤ h
      → IsSound w h l
      → length bytes < offset + ((h / 2 * 2 - 1) * stride + w / 2 * 2 * 4)
      → convert_bytes (some fmt) bytes offset stride l ≡ none
  convert_short fmt bytes offset stride l pw ph s short =
      let fits = frame_or_new-FitsSize l.ud.spare s.spare in
      let dst = frame_or_new l.ud.spare (w, h) in
      let wide = fits.width in
      let high = fits.height in
      let expected = s.expected in
      let src = drop offset bytes in
      let size = length-drop offset bytes in
      elim (Bool-cases (leb offset (length bytes))) [
        | inl e ↦
            let panics : to_i420 src stride fmt dst ≡ none =
              to_i420_short src stride fmt dst fits.frame (omega arith) (omega arith)
                (rw (wide, high) (ground arith)) in
            rw (convert_bytes, e, expected, panics) refl
        | inr e ↦ rw (convert_bytes, e) refl
      ]

  -- Sound states have sound ends.
  abbrev pub EndsSound : Option Loop → Type 0
  EndsSound r = (l : Loop) → r ≡ some l → IsSound w h l

  convert-EndsSound :
      (fmt : Option PixelFormat) (bytes : List ℕ) (offset stride : ℕ) (l : Loop)
      → 2 ≤ w
      → 2 ≤ h
      → IsSound w h l
      → ((f : PixelFormat) → fmt ≡ some f → IsLayout f)
      → EndsSound (convert_bytes fmt bytes offset stride l)
  convert-EndsSound none bytes offset stride l pw ph s layout l' e =
      let same : l ≡ l' = ground arith in subst (IsSound w h) same s
  convert-EndsSound (some f) bytes offset stride l pw ph s layout l' e =
      let size = length-drop offset bytes in
      elim (Bool-cases (leb (offset + ((h / 2 * 2 - 1) * stride + w / 2 * 2 * 4)) (length bytes))) [
        | inl enough ↦
            let inside : offset ≤ length bytes = ground arith in
            let a =
              convert-Publishes f bytes offset stride l s (layout f refl) inside (ground arith) in
            let returns = a.returns in
            let same : publish a.frame l ≡ l' = some-injective _ _ (sym returns ∙ e) in
            subst (IsSound w h) same (publish-IsSound a.frame l a.fits s)
        | inr short ↦
            let panics = convert_short f bytes offset stride l pw ph s (ground arith) in
            let bad : none ≡ some l' = sym panics ∙ e in ground arith
      ]

  pub on_process-EndsSound :
      (buffer : Option (List Chunk)) (l : Loop)
      → 2 ≤ w
      → 2 ≤ h
      → IsSound w h l
      → EndsSound (on_process buffer l)
  unfolding on_process
  on_process-EndsSound none l pw ph s =
      λ l' e. let same : l ≡ l' = ground arith in subst (IsSound w h) same s
  on_process-EndsSound (some []) l pw ph s =
      λ l' e. let same : l ≡ l' = ground arith in subst (IsSound w h) same s
  on_process-EndsSound (some (c ∷ cs)) l pw ph s =
      elim c.bytes as (λ o. EndsSound (on_bytes o c.offset (as_usize c.stride) l)) [
        | none ↦ λ l' e. let same : l ≡ l' = ground arith in subst (IsSound w h) same s
        | some bytes ↦
            elim (as_usize c.stride == 0
                || ltb (length bytes) ((c.offset + as_usize c.stride) % 2 ^ 64))
              as (λ t. EndsSound (
                if t
                then some l
                else convert_bytes l.ud.fmt bytes c.offset (as_usize c.stride) l)) [
                  | true ↦ λ l' e. let same : l ≡ l' = ground arith in subst (IsSound w h) same s
                  | false ↦
                      convert-EndsSound l.ud.fmt bytes c.offset (as_usize c.stride) l pw ph s
                        s.layout
                ]
      ]

  pub reaches_convert :
      (c : Chunk) (cs : List Chunk) (bytes : List ℕ) (fmt : PixelFormat) (l : Loop)
      → c.bytes ≡ some bytes
      → is_dropped c bytes ≡ false
      → l.ud.fmt ≡ some fmt
      → on_process (some (c ∷ cs)) l ≡ convert_bytes (some fmt) bytes c.offset (as_usize c.stride) l
  unfolding on_process
  reaches_convert c cs bytes fmt l e k f =
      let open_bytes : on_process (some (c ∷ cs)) l
          ≡ convert_bytes l.ud.fmt bytes c.offset (as_usize c.stride) l =
        rw (e, k) refl in
      open_bytes ∙ ap (λ o. convert_bytes o bytes c.offset (as_usize c.stride) l) f

  -- A mapped buffer that the guard lets pass and that holds a whole frame, once a layout is known: its conversion
  -- becomes the newest frame, and the frame before it is the next to be written over.
  pub on_process-Publishes :
      (c : Chunk) (cs : List Chunk) (bytes : List ℕ) (fmt : PixelFormat) (l : Loop)
      → IsSound w h l
      → l.ud.fmt ≡ some fmt
      → c.bytes ≡ some bytes
      → is_dropped c bytes ≡ false
      → c.offset ≤ length bytes
      → Holds (drop c.offset bytes) (as_usize c.stride) (w / 2 * 2) (h / 2 * 2)
      → Publishes (drop c.offset bytes) (as_usize c.stride) fmt l (on_process (some (c ∷ cs)) l)
  on_process-Publishes c cs bytes fmt l s f e k inside whole =
      let a =
        convert-Publishes fmt bytes c.offset (as_usize c.stride) l s (s.layout fmt f) inside
          whole in
      record {
        frame = a.frame;
        returns = reaches_convert c cs bytes fmt l e k f ∙ a.returns;
        converted = a.converted;
        fits = a.fits;
      }

  -- A mapped buffer that the guard lets pass but that ends before the last row of the frame does is a panic, once
  -- a layout is known and the frame has 2 by 2 pixels at least: the guard asks for one row only.
  pub on_process_short :
      (c : Chunk) (cs : List Chunk) (bytes : List ℕ) (fmt : PixelFormat) (l : Loop)
      → 2 ≤ w
      → 2 ≤ h
      → IsSound w h l
      → l.ud.fmt ≡ some fmt
      → c.bytes ≡ some bytes
      → is_dropped c bytes ≡ false
      → length bytes < c.offset + ((h / 2 * 2 - 1) * as_usize c.stride + w / 2 * 2 * 4)
      → on_process (some (c ∷ cs)) l ≡ none
  on_process_short c cs bytes fmt l pw ph s f e k short =
      reaches_convert c cs bytes fmt l e k f
      ∙ convert_short fmt bytes c.offset (as_usize c.stride) l pw ph s short
