-- ===== src/ClockSync.antt =====
-- loom-proto/src/clocksync.rs: the min-rtt filter of the clock offset.
-- Times are microseconds, `i64` values as integers; `wrap` is what an `i64` operation keeps of its
-- exact result in a release build.
pub mod Window
pub mod Exact
mod Tests
use loom_host.Base.{
  ℕ, suc, ltb, if◌then◌else◌, Bool, true, false, List, [], ◌∷◌, ◌++◌, length, drop,
}
use loom_host.Base.Int.{ℤ, pos, ◌+ℤ◌, ◌-ℤ◌, leb_ℤ, half, as_i64}

abbrev pub window_size : ℕ
window_size = 16

pub record Estimate : Type 0 where
  pub rtt : ℤ
  pub offset : ℤ

pub record ClockFilter : Type 0 where
  pub window : List Estimate

unfoldable pub new : ClockFilter
new = record { window = [] }

infixl 65 ◌-₆₄◌ ◌+₆₄◌
abbrev pub ◌-₆₄◌ : ℤ → ℤ → ℤ
a -₆₄ b = as_i64 (a -ℤ b)

abbrev pub ◌+₆₄◌ : ℤ → ℤ → ℤ
a +₆₄ b = as_i64 (a +ℤ b)

-- The sample of one exchange. `half` is `div_euclid(2)`.
unfoldable pub sample : ℤ → ℤ → ℤ → ℤ → Estimate
sample t0 t1 t2 t3 = record {
  rtt = (t3 -₆₄ t0) -₆₄ (t2 -₆₄ t1);
  offset = half ((t1 -₆₄ t0) +₆₄ (t2 -₆₄ t3));
}

-- The loop over `window[1..]`, from the best so far.
unfoldable pub best_loop : Estimate → List Estimate → Estimate
best_loop best [] = best
best_loop best (s ∷ ss) = best_loop (if leb_ℤ s.rtt best.rtt then s else best) ss

-- `window.push`, and `remove(0)` of a window that is too long.
unfoldable pub slide : Estimate → List Estimate → List Estimate
slide e window =
    let longer = window ++ (e ∷ []) in
    if ltb window_size (length longer) then drop 1 longer else longer

-- The minimum over a window, `window[0]` first; an empty window is never met.
unfoldable pub best_of : Estimate → List Estimate → Estimate
best_of e [] = e
best_of e (s ∷ ss) = best_loop s ss

-- `push`: the filter afterwards, and the estimate.
unfoldable pub push : ℤ → ℤ → ℤ → ℤ → ClockFilter → ClockFilter × Estimate
push t0 t1 t2 t3 c =
    let e = sample t0 t1 t2 t3 in
    let window = slide e c.window in (record { window = window }, best_of e window)

-- The filter over a list of exchanges.
unfoldable pub run : List (ℤ × ℤ × ℤ × ℤ) → ClockFilter → ClockFilter
run [] c = c
run ((t0, t1, t2, t3) ∷ ts) c = run ts (push t0 t1 t2 t3 c).0
