-- ===== src/ClockSync/Tests.antt =====
-- loom-proto/src/clocksync.rs: the crate's own test cases, and the theorems at concrete inputs.
use loom_host.Base.{◌≡◌, refl, arith, List, ◌∷◌, map, replicate}
use loom_host.Base.Int.{ℤ, pos, negsuc, ◌+ℤ◌, ◌-ℤ◌, ◌≤ℤ◌, half, as_i64, as_u64}
use loom_host.ClockSync.{
  ClockFilter, new, sample, best_loop, best_of, slide, push, run, window_size,
}
use loom_host.ClockSync.Window.{last_n, sample_of, IsLatestMin, push-IsLatestMin, run-last_n}
use loom_host.ClockSync.Exact.{IsExchange, sample_error}

-- `basic_arithmetic`, `negative_offset_floors` and `floor_division_rounds_toward_negative_infinity`
samples :
    (sample (pos 1000) (pos 501500) (pos 501540) (pos 2100)
      ≡ record { rtt = pos 1060; offset = pos 499970 })
    × (sample (pos 0) (negsuc 249999) (negsuc 249959) (pos 1000)
        ≡ record { rtt = pos 960; offset = negsuc 250479 })
    × ((sample (pos 0) (pos 0) (pos 0) (pos 3)).offset ≡ negsuc 1)
unfolding sample half as_i64 as_u64 ◌-ℤ◌ ◌+ℤ◌
samples = (refl, refl, refl)

-- `tie_breaks_to_more_recent_sample`
tie :
    (push
      (pos 0)
      (pos 2000)
      (pos 2040)
      (pos 100)
      (push (pos 0) (pos 1000) (pos 1040) (pos 100) new).0).1
    ≡ record { rtt = pos 60; offset = pos 1970 }
unfolding push slide best_of best_loop new sample half as_i64 as_u64 ◌-ℤ◌ ◌+ℤ◌
tie = refl

abbrev first : ClockFilter
first = (push (pos 0) (pos 500) (pos 540) (pos 100) new).0

push-IsLatestMin_example :
    let (c, best) = push (pos 9) (pos 700) (pos 740) (pos 109) first in IsLatestMin best c.window
push-IsLatestMin_example = push-IsLatestMin (pos 9) (pos 700) (pos 740) (pos 109) first

abbrev exchanges : List (ℤ × ℤ × ℤ × ℤ)
exchanges = (pos 0, pos 5, pos 6, pos 7) ∷ replicate 17 (pos 1, pos 5, pos 6, pos 9)

run-last_n_case : (run exchanges new).window ≡ last_n window_size (map sample_of exchanges)
run-last_n_case = run-last_n exchanges

-- A host clock that is 1000 µs behind, a ping of 40 µs and a pong of 21 µs.
lagging : IsExchange (negsuc 999) 40 21 (pos 5000) (pos 4040) (pos 4100) (pos 5121)
unfolding ◌+ℤ◌
lagging = record {
  ping = refl;
  pong = refl;
  times = (
    (omega arith, omega arith),
    (omega arith, omega arith),
    (omega arith, omega arith),
    (omega arith, omega arith),
  );
}

sample_error_example :
    let e = sample (pos 5000) (pos 4040) (pos 4100) (pos 5121) in
    (e.rtt ≡ pos 61)
    × (negsuc 999 +ℤ negsuc 999 ≤ℤ e.offset +ℤ e.offset +ℤ e.rtt +ℤ pos 1)
    × (e.offset +ℤ e.offset ≤ℤ negsuc 999 +ℤ negsuc 999 +ℤ e.rtt)
sample_error_example = sample_error (negsuc 999) 40 21 lagging
