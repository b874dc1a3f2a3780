-- ===== src/ClockSync/Window.antt =====
-- loom-proto/src/clocksync.rs: the window is the last 16 samples, and the estimate its latest
-- minimum.
use loom_host.Base.{
  ℕ, zero, suc, ◌+◌, ◌-◌, ◌≤◌, ◌≡◌, refl, ap, sym, ◌∙◌, arith, ltb, if◌then◌else◌, true, false,
  Bool-cases, inl, inr,
}
use loom_host.Base.{
  List, [], ◌∷◌, ◌++◌, length, drop, All, All-append, map, length-drop, drop-drop, subst,
  length-append, append_assoc, append-nil,
}
use loom_host.Base.Int.{ℤ, ◌≤ℤ◌, ◌<ℤ◌, leb_ℤ}
use loom_host.ClockSync.{
  Estimate, ClockFilter, new, sample, best_loop, slide, best_of, push, run, window_size,
}

-- The last `n` of a list.
abbrev pub last_n : ℕ → List Estimate → List Estimate
last_n n xs = drop (length xs - n) xs

-- The estimate is a minimum of the window, and each later sample is strictly greater.
pub record IsLatestMin (best : Estimate) (window : List Estimate) : Type 0 where
  pub before : List Estimate
  pub after : List Estimate
  pub split : window ≡ before ++ (best ∷ after)
  pub least : All (λ s. best.rtt ≤ℤ s.rtt) before
  pub latest : All (λ s. best.rtt <ℤ s.rtt) after

abbrev pub sample_of : ℤ × ℤ × ℤ × ℤ → Estimate
sample_of (t0, t1, t2, t3) = sample t0 t1 t2 t3

All-map {κ μ} :
    {P : Estimate → Type κ} {Q : Estimate → Type μ} (xs : List Estimate)
    → ((e : Estimate) → P e → Q e)
    → All P xs
    → All Q xs
All-map [] f h = tt
All-map (x ∷ xs) f (h, hs) = (f x h, All-map xs f hs)

-- One more sample.
min_extend :
    (best s : Estimate) (seen : List Estimate)
    → IsLatestMin best seen
    → IsLatestMin (if leb_ℤ s.rtt best.rtt then s else best) (seen ++ (s ∷ []))
min_extend best s seen m = elim (Bool-cases (leb_ℤ s.rtt best.rtt)) [
  | inl e ↦
      let above : (x : Estimate) → best.rtt ≤ℤ x.rtt → s.rtt ≤ℤ x.rtt = λ x h. ground arith in
      rw e record {
        before = seen;
        after = [];
        split = refl;
        least = subst (All (λ x. s.rtt ≤ℤ x.rtt)) (sym m.split) (
            All-append (λ x. s.rtt ≤ℤ x.rtt) m.before (best ∷ m.after)
              (All-map m.before above m.least)
              (above best (omega arith), All-map m.after (λ x h. above x (omega arith)) m.latest));
        latest = tt;
      }
  | inr e ↦ rw e record {
    before = m.before;
    after = m.after ++ (s ∷ []);
    split = ap (λ xs. xs ++ (s ∷ [])) m.split ∙ append_assoc m.before (best ∷ m.after) (s ∷ []);
    least = m.least;
    latest = All-append (λ x. best.rtt <ℤ x.rtt) m.after (s ∷ []) m.latest (ground arith, tt);
  }
]

best_loop-IsLatestMin :
    (best : Estimate) (seen ss : List Estimate)
    → IsLatestMin best seen
    → IsLatestMin (best_loop best ss) (seen ++ ss)
unfolding best_loop
best_loop-IsLatestMin best seen [] m = rw (append-nil seen) m
best_loop-IsLatestMin best seen (s ∷ ss) m =
    subst (IsLatestMin (best_loop (if leb_ℤ s.rtt best.rtt then s else best) ss))
      (append_assoc seen (s ∷ []) ss)
      (best_loop-IsLatestMin (if leb_ℤ s.rtt best.rtt then s else best) (seen ++ (s ∷ [])) ss
        (min_extend best s seen m))

length-slide : (e : Estimate) (xs : List Estimate) → 1 ≤ length (slide e xs)
unfolding slide
length-slide e xs = grind (arith, length-append xs (e ∷ []), length-drop 1 (xs ++ (e ∷ [])))

best_of-IsLatestMin :
    (e : Estimate) (xs : List Estimate) → 1 ≤ length xs → IsLatestMin (best_of e xs) xs
unfolding best_of
best_of-IsLatestMin e [] h = absurd (omega arith)
best_of-IsLatestMin e (s ∷ ss) h =
    best_loop-IsLatestMin s (s ∷ []) ss
      record { before = []; after = []; split = refl; least = tt; latest = tt }

-- The estimate that a sample gives is the latest of the window's samples with the least rtt:
-- none before it has a smaller rtt, and every one after it a greater.
pub push-IsLatestMin :
    (t0 t1 t2 t3 : ℤ) (c : ClockFilter)
    → let (c', best) = push t0 t1 t2 t3 c in IsLatestMin best c'.window
unfolding push
push-IsLatestMin t0 t1 t2 t3 c =
    let e = sample t0 t1 t2 t3 in best_of-IsLatestMin e (slide e c.window) (length-slide e c.window)

drop-append_le :
    (k : ℕ) (xs ys : List Estimate) → k ≤ length xs → drop k (xs ++ ys) ≡ drop k xs ++ ys
drop-append_le zero xs ys h = refl
drop-append_le (suc k) [] ys h = absurd (omega arith)
drop-append_le (suc k) (x ∷ xs) ys h = drop-append_le k xs ys (omega arith)

-- Sliding keeps the last 16 samples.
slide_last :
    (e : Estimate) (xs : List Estimate)
    → slide e (last_n window_size xs) ≡ last_n window_size (xs ++ (e ∷ []))
unfolding slide
slide_last e xs = elim (Bool-cases (ltb (length xs) window_size)) [
  | inl few ↦
      let none_gone : length xs - window_size ≡ 0 = ground arith in
      let none_goes : length (xs ++ (e ∷ [])) - window_size ≡ 0 =
        ground (arith, length-append xs (e ∷ [])) in
      let fits : ltb window_size (length (xs ++ (e ∷ []))) ≡ false =
        ground (arith, length-append xs (e ∷ [])) in
      rw (none_gone, none_goes, fits) refl
  | inr full ↦
      let gone = length xs - window_size in
      let full_window : length (drop gone xs ++ (e ∷ [])) ≡ 17 =
        ground (arith, length-append (drop gone xs) (e ∷ []), length-drop gone xs) in
      let long : ltb window_size (length (drop gone xs ++ (e ∷ []))) ≡ true = rw full_window refl in
      let next : length (xs ++ (e ∷ [])) - window_size ≡ gone + 1 =
        ground (arith, length-append xs (e ∷ [])) in
      rw (long, next)
        (ap (drop 1) (sym (drop-append_le gone xs (e ∷ []) (omega arith)))
          ∙ drop-drop 1 gone (xs ++ (e ∷ [])))
]

run_last :
    (ts : List (ℤ × ℤ × ℤ × ℤ)) (c : ClockFilter) (xs : List Estimate)
    → c.window ≡ last_n window_size xs
    → (run ts c).window ≡ last_n window_size (xs ++ map sample_of ts)
unfolding run push
run_last [] c xs h = rw (append-nil xs) h
run_last ((t0, t1, t2, t3) ∷ ts) c xs h =
    let e = sample t0 t1 t2 t3 in
    run_last ts (push t0 t1 t2 t3 c).0 (xs ++ (e ∷ [])) (ap (slide e) h ∙ slide_last e xs)
    ∙ ap (last_n window_size) (append_assoc xs (e ∷ []) (map sample_of ts))

-- The window of a new filter, after any exchanges, holds the samples of the last 16 of them, oldest
-- first.
pub run-last_n :
    (ts : List (ℤ × ℤ × ℤ × ℤ)) → (run ts new).window ≡ last_n window_size (map sample_of ts)
unfolding new
run-last_n ts = run_last ts new [] refl
