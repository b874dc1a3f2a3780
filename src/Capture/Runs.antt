-- ===== src/Capture/Runs.antt =====
-- loom-capture/src/stream.rs: the whole thread, over any events.
use loom_host.Base.{ℕ, ◌≤◌, ◌==◌}
use loom_host.Base.{◌≡◌, refl, ap, sym, ◌∙◌, subst, arith, true, false, Bool-cases}
use loom_host.Base.{Option-cases, inl, inr, Option, none, some, List, [], ◌∷◌, length}
use loom_host.Base.{All, ok, err, drop, if◌then◌else◌}
use loom_host.Capture.Failure.{CaptureError}
use loom_host.Capture.Watch.{
  Image, Seen, unseen, see_bytes, see_chunk, see, watch, ShowsImage, Agrees, on_param-Agrees,
  on_state-Agrees, timer-Agrees,
}
use mathlib.Core.Option.{some-injective}
use loom_host.Capture.{I420Buffer, copy_into, PixelFormat}
use loom_host.Capture.Stream.{
  Report, Loop, report, Parsers, as_usize, Chunk, frame_or_new, publish, on_process, Event,
  state_changed, param_changed, process, timer, dispatch, pump, Setup, setup_error, fresh, run,
  started, fill,
}
use loom_host.Capture.Sound.{
  FitsSize, IsSound, report-IsSound, quit-IsSound, on_param-IsSound, on_state-IsSound,
}
use loom_host.Capture.Publish.{
  EndsSound, on_process-EndsSound, HoldsFrame, convert-Publishes, is_dropped, reaches_convert,
  frame_or_new-FitsSize,
}

module _ {Pod : Type 0} (p : Parsers Pod) (w h : ℕ) (pw : 2 ≤ w) (ph : 2 ≤ h) where
  dispatch-EndsSound : (e : Event Pod) (l : Loop) → IsSound w h l → EndsSound w h (dispatch p e l)
  unfolding dispatch
  dispatch-EndsSound (state_changed new_state) l s =
      λ l' e. subst (IsSound w h) (some-injective _ _ e) (on_state-IsSound p w h new_state l s)
  dispatch-EndsSound (param_changed id param) l s =
      λ l' e. subst (IsSound w h) (some-injective _ _ e) (on_param-IsSound p w h id param l s)
  dispatch-EndsSound (process buffer) l s = on_process-EndsSound w h buffer l pw ph s
  dispatch-EndsSound (timer false) l s = λ l' e. subst (IsSound w h) (some-injective _ _ e) s
  dispatch-EndsSound (timer true) l s =
      λ l' e. subst (IsSound w h) (some-injective _ _ e) (quit-IsSound w h l s)

  pump-EndsSound : (es : List (Event Pod)) (l : Loop) → IsSound w h l → EndsSound w h (pump p es l)
  unfolding pump
  pump-EndsSound [] l s l' e = subst (IsSound w h) (some-injective _ _ e) s
  pump-EndsSound (ev ∷ es) l s l' e = elim (Bool-cases l.quits) [
    | inl k ↦ let same : l ≡ l' = ground arith in subst (IsSound w h) same s
    | inr k ↦ elim (Option-cases (dispatch p ev l)) [
      | inl d ↦ ground arith
      | inr (m, d) ↦ pump-EndsSound es m (dispatch-EndsSound ev l s m d) l' (ground arith)
    ]
  ]

-- Of each buffer that is delivered, the first data holds a whole frame, unless the guard drops it.
abbrev pub HoldsEvent : {Pod : Type 0} → ℕ → ℕ → Event Pod → Type 0
HoldsEvent w h (process (some (c ∷ cs))) = HoldsFrame w h c
HoldsEvent w h e = Unit

module _ {Pod : Type 0} (p : Parsers Pod) (w h : ℕ) where
  -- An event leads to a state that answers to what is seen then.
  Sees : Event Pod → Seen → Option Loop → Type 0
  Sees e s r = (l : Loop) × (r ≡ some l) × Agrees w h (see p w h e s) l

  chunk-Sees :
      (c : Chunk) (cs : List Chunk) (s : Seen) (l : Loop)
      → IsSound w h l
      → HoldsFrame w h c
      → Agrees w h s l
      → Sees (process (some (c ∷ cs))) s (on_process (some (c ∷ cs)) l)
  unfolding Sees on_process
  chunk-Sees c cs s l sound holds g = elim (Option-cases c.bytes) [
    | inl e ↦ (l, rw e refl, subst (λ z. Agrees w h z l) (sym (ap (λ o. see_chunk o c s) e)) g)
    | inr (bytes, e) ↦
        let stride = as_usize c.stride in
        let src = drop c.offset bytes in
        let looked : see_chunk c.bytes c s
            ≡ (if is_dropped c bytes then s else see_bytes s.layout src stride s) =
          ap (λ o. see_chunk o c s) e in
        elim (Bool-cases (is_dropped c bytes)) [
          | inl k ↦
              let seen = looked ∙ ap (λ t. if t then s else see_bytes s.layout src stride s) k in
              (l, rw (e, k) refl, subst (λ z. Agrees w h z l) (sym seen) g)
          | inr k ↦
              let passed = looked ∙ ap (λ t. if t then s else see_bytes s.layout src stride s) k in
              elim (Option-cases l.ud.fmt) [
                | inl f ↦
                    let seen = passed ∙ ap (λ o. see_bytes o src stride s) (sym g.layout ∙ f) in
                    (l, rw (e, k, f) refl, subst (λ z. Agrees w h z l) (sym seen) g)
                | inr (fmt, f) ↦
                    let (inside, whole) = holds bytes e k in
                    let a =
                      convert-Publishes w h fmt bytes c.offset stride l sound (sound.layout fmt f)
                        inside whole in
                    let seen = passed ∙ ap (λ o. see_bytes o src stride s) (sym g.layout ∙ f) in
                    let next : Loop = publish a.frame l in
                    (
                      next,
                      reaches_convert w h c cs bytes fmt l e k f ∙ a.returns,
                      subst (λ z. Agrees w h z next) (sym seen)
                          (record {
                            layout = g.layout;
                            over = g.over;
                            shown = record {
                              frame = a.frame;
                              held = refl;
                              scratch = frame_or_new l.ud.spare (w, h);
                              scratch_fits = frame_or_new-FitsSize w h l.ud.spare sound.spare;
                              converted = a.converted;
                            };
                          }),
                    )
              ]
        ]
  ]

  dispatch-Sees :
      (e : Event Pod) (s : Seen) (l : Loop)
      → IsSound w h l
      → HoldsEvent w h e
      → Agrees w h s l
      → Sees e s (dispatch p e l)
  unfolding Sees dispatch on_process
  dispatch-Sees (state_changed new_state) s l sound hold g =
      (_, refl, on_state-Agrees p w h new_state s l g)
  dispatch-Sees (param_changed id param) s l sound hold g =
      (_, refl, on_param-Agrees p w h id param s l sound g)
  dispatch-Sees (process none) s l sound hold g = (l, refl, g)
  dispatch-Sees (process (some [])) s l sound hold g = (l, refl, g)
  dispatch-Sees (process (some (c ∷ cs))) s l sound hold g = chunk-Sees c cs s l sound hold g
  dispatch-Sees (timer stop) s l sound hold g = (_, refl, timer-Agrees p w h stop s l g)

module _ {Pod : Type 0} (p : Parsers Pod) (w h : ℕ) (pw : 2 ≤ w) (ph : 2 ≤ h) where
  pump_next :
      (ev : Event Pod) (es : List (Event Pod)) (l m : Loop)
      → l.quits ≡ false
      → dispatch p ev l ≡ some m
      → pump p (ev ∷ es) l ≡ pump p es m
  unfolding pump
  pump_next ev es l m k d = simp (k, d) refl

  pump-Agrees :
      (es : List (Event Pod)) (s : Seen) (l : Loop)
      → IsSound w h l
      → Agrees w h s l
      → All (HoldsEvent w h) es
      → (l' : Loop) × (pump p es l ≡ some l') × Agrees w h (watch p w h es s) l'
  unfolding pump Sees
  pump-Agrees [] s l sound g hold = (l, refl, g)
  pump-Agrees (ev ∷ es) s l sound g (now, later) = elim (Bool-cases l.quits) [
    | inl k ↦
        let over : s.over ≡ true = sym g.over ∙ k in
        (
          l,
          rw k refl,
          subst (λ t. Agrees w h (if t then s else watch p w h es (see p w h ev s)) l) (sym over) g,
        )
    | inr k ↦
        let over : s.over ≡ false = sym g.over ∙ k in
        let (m, d, g') = dispatch-Sees p w h ev s l sound now g in
        let (l', e, a) =
          pump-Agrees es (see p w h ev s) m (dispatch-EndsSound p w h pw ph ev l sound m d) g'
            later in
        (
          l',
          pump_next ev es l m k d ∙ e,
          subst (λ t. Agrees w h (if t then s else watch p w h es (see p w h ev s)) l') (sym over)
              a,
        )
  ]

-- The newest image that is seen by a thread whose setup fails or not.
abbrev pub newest_of :
    {Pod : Type 0} → Parsers Pod → ℕ → ℕ → List (Event Pod) → Option CaptureError → Option Image
newest_of p w h es none = (watch p w h es unseen).image
newest_of p w h es (some e) = none

-- The end of the thread.
pub record Captures (w h : ℕ) (newest : Option Image) (r : Option Loop) : Type 0 where
  pub end : Loop
  pub returns : r ≡ some end
  pub sound : IsSound w h end
  -- `start` succeeds only if a layout is known
  pub starts : started end.sent ≡ ok tt → (f : PixelFormat) × (end.ud.fmt ≡ some f)
  -- the slot has the conversion of the newest image that was seen
  pub shows : ShowsImage w h newest end.ud.slot
  -- a frame of the size is filled with the frame in the slot, if there is one
  pub fills :
      (frame dst : I420Buffer)
      → end.ud.slot ≡ some frame
      → FitsSize w h dst
      → fill end.ud.slot dst ≡ some (true, record dst { pixels = frame.pixels })

fill_newest :
    (w h : ℕ) (newest dst : I420Buffer)
    → FitsSize w h newest
    → FitsSize w h dst
    → fill (some newest) dst ≡ some (true, record dst { pixels = newest.pixels })
unfolding fill copy_into
fill_newest w h newest dst a b =
    let sizes : length newest.pixels ≡ length dst.pixels =
      a.frame.size ∙ rw (a.width, a.height, b.width, b.height) refl ∙ sym b.frame.size in
    let agree : (length newest.pixels == length dst.pixels) ≡ true = ground arith in
    rw (fill, copy_into, agree) refl

starts_known :
    (w h : ℕ) (l : Loop) (sent : List Report)
    → l.sent ≡ sent
    → IsSound w h l
    → started sent ≡ ok tt
    → (f : PixelFormat) × (l.ud.fmt ≡ some f)
unfolding started
starts_known w h l [] e s k = ground arith
starts_known w h l (r ∷ rs) e s k = elim (Bool-cases l.ud.ready) [
  | inl b ↦ let empty = s.unsent b in ground arith
  | inr b ↦
      let (r', one) = s.once b in
      s.known (let same : r ∷ rs ≡ r' ∷ [] = sym e ∙ one in let kk : r ≡ ok tt = k in ground arith)
]

fresh-IsSound : (w h : ℕ) → IsSound w h (fresh (w, h))
fresh-IsSound w h = record {
  expected = refl;
  unsent = λ e. refl;
  once = λ e. ground arith;
  known = λ e. ground arith;
  layout = λ f e. ground arith;
  slot = λ f e. ground arith;
  spare = λ f e. ground arith;
}

IsSound-Captures :
    (w h : ℕ) (newest : Option Image) (l : Loop) (r : Option Loop)
    → r ≡ some l
    → IsSound w h l
    → ShowsImage w h newest l.ud.slot
    → Captures w h newest r
IsSound-Captures w h newest l r e s shows = record {
  end = l;
  returns = e;
  sound = s;
  starts = starts_known w h l l.sent refl s;
  shows = shows;
  fills =
      λ frame dst k fits. ap (λ o. fill o dst) k ∙ fill_newest w h frame dst (s.slot frame k) fits;
}

module _ {Pod : Type 0} (p : Parsers Pod) (w h : ℕ) (pw : 2 ≤ w) (ph : 2 ≤ h) where
  -- If every buffer that PipeWire delivers, and the guard lets pass, holds a whole frame, the capture thread of a stream of 2 by
  -- 2 pixels at least, whatever else it is told and whichever step of its setup fails, runs without a panic: it reports
  -- once at most, and success only with a layout known; the frames that it keeps have the size that is expected; the slot
  -- has the conversion of the newest image that came after a layout, and before the end; and any frame of the size is
  -- filled with it.
  pub run-Captures :
      (setup : Setup) (es : List (Event Pod))
      → All (HoldsEvent w h) es
      → Captures w h (newest_of p w h es (setup_error setup)) (run p setup (w, h) es)
  unfolding run report
  run-Captures setup es hold = elim (Option-cases (setup_error setup)) [
    | inl e ↦
        let first = fresh (w, h) in
        let s = fresh-IsSound w h in
        let (l, k, g) =
          pump-Agrees p w h pw ph es unseen first s
            (record { layout = refl; over = refl; shown = refl }) hold in
        rw (run, e)
          (IsSound-Captures w h (watch p w h es unseen).image l (pump p es first) k
            (pump-EndsSound p w h pw ph es first s l k) g.shown)
    | inr (f, e) ↦
        let failed = report (err f) (fresh (w, h)) in
        rw (run, e)
          (IsSound-Captures w h none failed (some failed) refl
            (report-IsSound w h (err f) (fresh (w, h)) (λ k. ground arith) (fresh-IsSound w h))
            refl)
  ]
