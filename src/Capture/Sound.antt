-- ===== src/Capture/Sound.antt =====
-- loom-capture/src/stream.rs: what always holds of the state that the callbacks share, and that formats,
-- errors and reports keep it.
use loom_host.Base.{ℕ, ◌*◌, ◌/◌, ◌==◌, ◌&&◌}
use loom_host.Base.{
  if◌then◌else◌, ◌≡◌, refl, ap, sym, ◌∙◌, subst, arith, Bool, true, false, Bool-cases,
}
use loom_host.Base.{inl, inr, Option, none, some, [], ◌∷◌, ◌++◌}
use loom_host.Base.{Result, ok, err}
use loom_host.Capture.{I420Buffer, new, PixelFormat, bgrx, rgbx}
use loom_host.Capture.Failure.{Words, CaptureError, size_mismatch}
use loom_host.Capture.Frames.{IsFrame, new-IsFrame}
use loom_host.Capture.Convert.{IsLayout}
use loom_host.Capture.Stream.{
  Report, Loop, report, quit, VideoFormat, video_bgra, video_bgrx, video_rgba, video_rgbx,
  other_format, VideoInfo, Parsers, pixel_format, lock_in, on_media, on_format, on_state, refused,
  on_param,
}

-- A frame of the size to which `w` by `h` is rounded down.
pub record FitsSize (w h : ℕ) (f : I420Buffer) : Type 0 where
  pub frame : IsFrame f
  pub width : f.width ≡ w / 2 * 2
  pub height : f.height ≡ h / 2 * 2

pub new-FitsSize : (w h : ℕ) → FitsSize w h (new w h)
unfolding new
new-FitsSize w h = record { frame = new-IsFrame w h; width = refl; height = refl }

-- The frames that are kept have the size that is expected; a report is sent once at most; and a layout is known
-- once success is reported.
pub record IsSound (w h : ℕ) (l : Loop) : Type 0 where
  pub expected : l.ud.expected ≡ (w, h)
  pub unsent : l.ud.ready ≡ true → l.sent ≡ []
  pub once : l.ud.ready ≡ false → (r : Report) × (l.sent ≡ r ∷ [])
  pub known : l.sent ≡ ok tt ∷ [] → (f : PixelFormat) × (l.ud.fmt ≡ some f)
  pub layout : (f : PixelFormat) → l.ud.fmt ≡ some f → IsLayout f
  pub slot : (f : I420Buffer) → l.ud.slot ≡ some f → FitsSize w h f
  pub spare : (f : I420Buffer) → l.ud.spare ≡ some f → FitsSize w h f

module _ (w h : ℕ) where
  pub report-IsSound :
      (r : Report) (l : Loop)
      → (r ≡ ok tt → (f : PixelFormat) × (l.ud.fmt ≡ some f))
      → IsSound w h l
      → IsSound w h (report r l)
  unfolding report
  report-IsSound r l ready s = elim (Bool-cases l.ud.ready) [
    | inl e ↦
        let empty = s.unsent e in
        rw e (record {
          expected = s.expected;
          unsent = λ k. ground arith;
          once = λ k. (r, ap (λ xs. xs ++ (r ∷ [])) empty);
          known = λ k. ready (
              let one : [] ++ (r ∷ []) ≡ ok tt ∷ [] = ap (λ xs. xs ++ (r ∷ [])) (sym empty) ∙ k in
              ground arith);
          layout = s.layout;
          slot = s.slot;
          spare = s.spare;
        })
    | inr e ↦ simp e s
  ]

  pub quit-IsSound : (l : Loop) → IsSound w h l → IsSound w h (quit l)
  quit-IsSound l s = record {
    expected = s.expected;
    unsent = s.unsent;
    once = s.once;
    known = s.known;
    layout = s.layout;
    slot = s.slot;
    spare = s.spare;
  }

pixel_format-IsLayout : (v : VideoFormat) (f : PixelFormat) → pixel_format v ≡ ok f → IsLayout f
pixel_format-IsLayout video_bgra f e =
    let k : bgrx ≡ f = ground arith in subst IsLayout k (omega arith, omega arith, omega arith)
pixel_format-IsLayout video_bgrx f e =
    let k : bgrx ≡ f = ground arith in subst IsLayout k (omega arith, omega arith, omega arith)
pixel_format-IsLayout video_rgba f e =
    let k : rgbx ≡ f = ground arith in subst IsLayout k (omega arith, omega arith, omega arith)
pixel_format-IsLayout video_rgbx f e =
    let k : rgbx ≡ f = ground arith in subst IsLayout k (omega arith, omega arith, omega arith)
pixel_format-IsLayout (other_format n) f e = ground arith

module _ (w h : ℕ) where
  lock_in-IsSound :
      (a b : ℕ) (f : Result PixelFormat CaptureError) (l : Loop)
      → ((k : PixelFormat) → f ≡ ok k → IsLayout k)
      → IsSound w h l
      → IsSound w h (lock_in a b f l).0
  lock_in-IsSound a b (err e) l ok_layout s = s
  lock_in-IsSound a b (ok k) l ok_layout s =
      let fits = a == l.ud.expected.0 && b == l.ud.expected.1 in
      let set = record l { ud = record l.ud { fmt = some k } } in
      let pick : Bool → Loop × Report = λ t.
        if t then (report (ok tt) set, ok tt) else (l, err (size_mismatch (a, b) l.ud.expected)) in
      elim fits as (λ t. IsSound w h (pick t).0) [
        | true ↦
            report-IsSound w h (ok tt) set (λ e. (k, refl))
              (record {
                expected = s.expected;
                unsent = s.unsent;
                once = s.once;
                known = λ e. (k, refl);
                layout = λ f e.
                    let same : k ≡ f = ground arith in subst IsLayout same (ok_layout k refl);
                slot = s.slot;
                spare = s.spare;
              })
        | false ↦ s
      ]

module _ {Pod : Type 0} (p : Parsers Pod) (w h : ℕ) where
  on_media-IsSound :
      (m : Option (Bool × Bool)) (v : Result VideoInfo Words) (l : Loop)
      → IsSound w h l
      → IsSound w h (on_media m v l).0
  on_media-IsSound none v l s = s
  on_media-IsSound (some (false, b)) v l s = s
  on_media-IsSound (some (true, false)) v l s = s
  on_media-IsSound (some (true, true)) (err e) l s = s
  on_media-IsSound (some (true, true)) (ok info) l s =
      lock_in-IsSound w h info.width info.height (pixel_format info.format) l
        (λ k e. pixel_format-IsLayout info.format k e) s

  refused-IsSound : (r : Loop × Report) → IsSound w h r.0 → IsSound w h (refused r)
  refused-IsSound (l, ok done) s = s
  refused-IsSound (l, err e) s =
      quit-IsSound w h _ (report-IsSound w h (err e) l (λ k. ground arith) s)

  pub on_param-IsSound :
      (id : ℕ) (param : Option Pod) (l : Loop) → IsSound w h l → IsSound w h (on_param p id param l)
  unfolding on_param on_format
  on_param-IsSound id none l s = s
  on_param-IsSound id (some q) l s =
      elim (id == p.format_id)
        as (λ t. IsSound w h (if t then refused (on_media (p.media q) (p.video q) l) else l)) [
          | true ↦
              refused-IsSound (on_media (p.media q) (p.video q) l)
                (on_media-IsSound (p.media q) (p.video q) l s)
          | false ↦ s
        ]

  pub on_state-IsSound :
      (new_state : Option Words) (l : Loop) → IsSound w h l → IsSound w h (on_state new_state l)
  on_state-IsSound none l s = s
  on_state-IsSound (some msg) l s =
      quit-IsSound w h _ (report-IsSound w h _ l (λ k. ground arith) s)
