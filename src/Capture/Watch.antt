-- ===== src/Capture/Watch.antt =====
-- loom-capture/src/stream.rs: what the events of a thread show, said without its state: the layout that holds,
-- the newest image, and whether the thread is over.
use loom_host.Base.{ℕ, ◌==◌, ◌&&◌, if◌then◌else◌, ◌≡◌, refl, ap, sym, subst, Bool, true, false}
use loom_host.Base.{Bool-cases, inl, inr, Option, none, some, List, [], ◌∷◌, drop, Result, ok, err}
use loom_host.Capture.{I420Buffer, PixelFormat, bgrx, rgbx, to_i420}
use loom_host.Capture.Failure.{Words, size_mismatch}
use loom_host.Capture.Stream.{
  Report, Loop, report, quit, VideoFormat, video_bgra, video_bgrx, video_rgba, video_rgbx,
  other_format, VideoInfo, Parsers, pixel_format, lock_in, on_media, on_format, as_usize, Chunk,
  Event, state_changed, param_changed, process, timer, on_state, refused, on_param,
}
use loom_host.Capture.Sound.{FitsSize, IsSound}
use loom_host.Capture.Publish.{is_dropped}

-- The bytes of an image, their stride and their layout.
abbrev pub Image : Type 0
Image = List ℕ × ℕ × PixelFormat

pub record Seen : Type 0 where
  pub layout : Option PixelFormat
  pub image : Option Image
  pub over : Bool

abbrev pub unseen : Seen
unseen = record { layout = none; image = none; over = false }

-- What a format that is offered amounts to, for a stream of `w` by `h`.
pub data Offer : Type 0 where
  other_media : Offer
  suits : PixelFormat → Offer
  unsuited : Offer

abbrev suits_size : Bool → PixelFormat → Offer
suits_size true f = suits f
suits_size false f = unsuited

abbrev video_offer : Bool → VideoFormat → Offer
video_offer fits video_bgra = suits_size fits bgrx
video_offer fits video_bgrx = suits_size fits bgrx
video_offer fits video_rgba = suits_size fits rgbx
video_offer fits video_rgbx = suits_size fits rgbx
video_offer fits (other_format n) = unsuited

abbrev pub offer : ℕ → ℕ → Option (Bool × Bool) → Result VideoInfo Words → Offer
offer w h none info = unsuited
offer w h (some (true, true)) (ok info) =
    video_offer (info.width == w && info.height == h) info.format
offer w h (some (true, true)) (err e) = unsuited
offer w h (some (true, false)) info = other_media
offer w h (some (false, is_raw)) info = other_media

abbrev pub see_offer : Offer → Seen → Seen
see_offer other_media s = s
see_offer (suits f) s = record s { layout = some f }
see_offer unsuited s = record s { over = true }

abbrev pub see_bytes : Option PixelFormat → List ℕ → ℕ → Seen → Seen
see_bytes none src stride s = s
see_bytes (some f) src stride s = record s { image = some (src, stride, f) }

abbrev pub see_chunk : Option (List ℕ) → Chunk → Seen → Seen
see_chunk none c s = s
see_chunk (some bytes) c s =
    if is_dropped c bytes then s else see_bytes s.layout (drop c.offset bytes) (as_usize c.stride) s

-- An event, and then the events until the thread is over.
abbrev pub see : {Pod : Type 0} → Parsers Pod → ℕ → ℕ → Event Pod → Seen → Seen
see p w h (state_changed none) s = s
see p w h (state_changed (some msg)) s = record s { over = true }
see p w h (param_changed id none) s = s
see p w h (param_changed id (some pod)) s =
    if id == p.format_id then see_offer (offer w h (p.media pod) (p.video pod)) s else s
see p w h (process none) s = s
see p w h (process (some [])) s = s
see p w h (process (some (c ∷ cs))) s = see_chunk c.bytes c s
see p w h (timer stop) s = if stop then record s { over = true } else s

abbrev pub watch : {Pod : Type 0} → Parsers Pod → ℕ → ℕ → List (Event Pod) → Seen → Seen
watch p w h [] s = s
watch p w h (e ∷ es) s = if s.over then s else watch p w h es (see p w h e s)

-- A frame that is the conversion of an image.
pub record IsOf (w h : ℕ) (src : List ℕ) (stride : ℕ) (fmt : PixelFormat) (slot : Option I420Buffer)
    : Type 0 where
  pub frame : I420Buffer
  pub held : slot ≡ some frame
  pub scratch : I420Buffer
  pub scratch_fits : FitsSize w h scratch
  pub converted : to_i420 src stride fmt scratch ≡ some frame

abbrev pub ShowsImage : ℕ → ℕ → Option Image → Option I420Buffer → Type 0
ShowsImage w h none slot = slot ≡ none
ShowsImage w h (some (src, stride, fmt)) slot = IsOf w h src stride fmt slot

-- The thread's state answers to what was seen.
pub record Agrees (w h : ℕ) (s : Seen) (l : Loop) : Type 0 where
  pub layout : l.ud.fmt ≡ s.layout
  pub over : l.quits ≡ s.over
  pub shown : ShowsImage w h s.image l.ud.slot

module _ (w h : ℕ) where
  report-Agrees : (r : Report) (s : Seen) (l : Loop) → Agrees w h s l → Agrees w h s (report r l)
  unfolding report
  report-Agrees r s l a = elim (Bool-cases l.ud.ready) [
    | inl e ↦ rw e (record { layout = a.layout; over = a.over; shown = a.shown })
    | inr e ↦ simp e a
  ]

  quit-Agrees :
      (r : Report) (s : Seen) (l : Loop)
      → Agrees w h s l
      → Agrees w h (record s { over = true }) (quit (report r l))
  quit-Agrees r s l a =
      let b = report-Agrees r s l a in record { layout = b.layout; over = refl; shown = b.shown }

  layout-Agrees :
      (f : PixelFormat) (s : Seen) (l : Loop)
      → Agrees w h s l
      → Agrees w h (record s { layout = some f }) (record l { ud = record l.ud { fmt = some f } })
  layout-Agrees f s l a = record { layout = refl; over = a.over; shown = a.shown }

  -- The comparison of the size, of a layout that is known.
  lock_in-Agrees :
      (f : PixelFormat) (a b : ℕ) (s : Seen) (l : Loop)
      → l.ud.expected ≡ (w, h)
      → Agrees w h s l
      → Agrees w h (see_offer (suits_size (a == w && b == h) f) s) (refused (lock_in a b (ok f) l))
  lock_in-Agrees f a b s l expected g =
      let told = record l { ud = record l.ud { fmt = some f } } in
      let good = report (ok tt) told in
      let bad = quit (report (err (size_mismatch (a, b) l.ud.expected)) l) in
      let pick : Bool → Loop × Report =
        λ t. if t then (good, ok tt) else (l, err (size_mismatch (a, b) l.ud.expected)) in
      let same : (a == l.ud.expected.0 && b == l.ud.expected.1) ≡ (a == w && b == h) =
        ap (λ (e : ℕ × ℕ). a == e.0 && b == e.1) expected in
      subst (λ t. Agrees w h (see_offer (suits_size (a == w && b == h) f) s) (refused (pick t)))
        (sym same)
        (elim (a == w && b == h)
          as (λ t. Agrees w h (see_offer (suits_size t f) s) (refused (pick t))) [
            | true ↦
                report-Agrees (ok tt) (record s { layout = some f }) told (layout-Agrees f s l g)
            | false ↦ quit-Agrees _ s l g
          ])

  video-Agrees :
      (v : VideoFormat) (a b : ℕ) (s : Seen) (l : Loop)
      → l.ud.expected ≡ (w, h)
      → Agrees w h s l
      → Agrees w h
          (see_offer (video_offer (a == w && b == h) v) s)
          (refused (lock_in a b (pixel_format v) l))
  video-Agrees video_bgra a b s l e g = lock_in-Agrees bgrx a b s l e g
  video-Agrees video_bgrx a b s l e g = lock_in-Agrees bgrx a b s l e g
  video-Agrees video_rgba a b s l e g = lock_in-Agrees rgbx a b s l e g
  video-Agrees video_rgbx a b s l e g = lock_in-Agrees rgbx a b s l e g
  video-Agrees (other_format n) a b s l e g = quit-Agrees _ s l g

  offer-Agrees :
      (m : Option (Bool × Bool)) (v : Result VideoInfo Words) (s : Seen) (l : Loop)
      → l.ud.expected ≡ (w, h)
      → Agrees w h s l
      → Agrees w h (see_offer (offer w h m v) s) (refused (on_media m v l))
  offer-Agrees none v s l e g = quit-Agrees _ s l g
  offer-Agrees (some (true, true)) (ok info) s l e g =
      video-Agrees info.format info.width info.height s l e g
  offer-Agrees (some (true, true)) (err x) s l e g = quit-Agrees _ s l g
  offer-Agrees (some (true, false)) v s l e g = g
  offer-Agrees (some (false, b)) v s l e g = g

module _ {Pod : Type 0} (p : Parsers Pod) (w h : ℕ) where
  pub on_param-Agrees :
      (id : ℕ) (param : Option Pod) (s : Seen) (l : Loop)
      → IsSound w h l
      → Agrees w h s l
      → Agrees w h (see p w h (param_changed id param) s) (on_param p id param l)
  unfolding on_param on_format
  on_param-Agrees id none s l sound g = g
  on_param-Agrees id (some q) s l sound g =
      let offered = offer w h (p.media q) (p.video q) in
      elim (id == p.format_id)
        as (λ t.
          Agrees w h (if t then see_offer offered s else s)
            (if t then refused (on_media (p.media q) (p.video q) l) else l)) [
              | true ↦ offer-Agrees w h (p.media q) (p.video q) s l sound.expected g
              | false ↦ g
            ]

  pub on_state-Agrees :
      (new_state : Option Words) (s : Seen) (l : Loop)
      → Agrees w h s l
      → Agrees w h (see p w h (state_changed new_state) s) (on_state new_state l)
  on_state-Agrees none s l g = g
  on_state-Agrees (some msg) s l g = quit-Agrees w h _ s l g

  pub timer-Agrees :
      (stop : Bool) (s : Seen) (l : Loop)
      → Agrees w h s l
      → Agrees w h (see p w h (timer stop) s) (if stop then quit l else l)
  timer-Agrees true s l g = record { layout = g.layout; over = refl; shown = g.shown }
  timer-Agrees false s l g = g
