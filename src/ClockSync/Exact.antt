-- ===== src/ClockSync/Exact.antt =====
-- loom-proto/src/clocksync.rs: what a sample says of the clocks.
use loom_host.Base.{ℕ, ◌+◌, ◌^◌, ◌<◌, ◌≡◌, refl, ap, arith}
use loom_host.Base.Int.{
  ℤ, pos, pos_part, neg_part, ◌+ℤ◌, ◌-ℤ◌, ◌≤ℤ◌, half, as_i64, as_i64_of_IsI64, +ℤ_parts, -ℤ_parts,
  eq_of_parts,
}
use loom_host.ClockSync.{sample}

-- Times within ±2^61 µs, more than 70,000 years.
abbrev pub IsTime : ℤ → Type 0
IsTime t = (pos_part t < 2 ^ 61) × (neg_part t < 2 ^ 61)

-- The clocks of an exchange: the host's is ahead by `theta`, the ping takes `d1` µs and the pong
-- `d2`.
pub record IsExchange (theta : ℤ) (d1 d2 : ℕ) (t0 t1 t2 t3 : ℤ) : Type 0 where
  pub ping : t1 ≡ t0 +ℤ theta +ℤ pos d1
  pub pong : t3 +ℤ theta ≡ t2 +ℤ pos d2
  pub times : IsTime t0 × IsTime t1 × IsTime t2 × IsTime t3

abbrev Within : ℕ → ℤ → Type 0
Within k z = (pos_part z < k) × (neg_part z < k)

sub-Within : (a b : ℤ) (k : ℕ) → Within k a → Within k b → Within (k + k) (a -ℤ b)
unfolding ◌-ℤ◌
sub-Within a b k ha hb = ground arith

add-Within : (a b : ℤ) (k : ℕ) → Within k a → Within k b → Within (k + k) (a +ℤ b)
unfolding ◌+ℤ◌
add-Within a b k ha hb = ground arith

half_lem : (z : ℤ) → (half z +ℤ half z ≤ℤ z) × (z ≤ℤ half z +ℤ half z +ℤ pos 1)
unfolding half ◌+ℤ◌
half_lem z = ground arith

in_range : (z : ℤ) → Within (2 ^ 63) z → as_i64 z ≡ z
in_range z h = as_i64_of_IsI64 z (ground arith)

-- No operation of a sample leaves the 64-bit range, so the sample is the exact one.
sample_exact :
    (t0 t1 t2 t3 : ℤ)
    → IsTime t0
    → IsTime t1
    → IsTime t2
    → IsTime t3
    → sample t0 t1 t2 t3
      ≡ record { rtt = (t3 -ℤ t0) -ℤ (t2 -ℤ t1); offset = half ((t1 -ℤ t0) +ℤ (t2 -ℤ t3)) }
unfolding sample
sample_exact t0 t1 t2 t3 h0 h1 h2 h3 =
    let a = sub-Within t3 t0 (2 ^ 61) h3 h0 in
    let b = sub-Within t2 t1 (2 ^ 61) h2 h1 in
    let c = sub-Within t1 t0 (2 ^ 61) h1 h0 in
    let d = sub-Within t2 t3 (2 ^ 61) h2 h3 in
    let wide : (z : ℤ) → Within (2 ^ 62) z → Within (2 ^ 63) z =
      λ z h. (omega arith, omega arith) in
    rw
      (
        in_range (t3 -ℤ t0) (wide (t3 -ℤ t0) a),
        in_range (t2 -ℤ t1) (wide (t2 -ℤ t1) b),
        in_range (t1 -ℤ t0) (wide (t1 -ℤ t0) c),
        in_range (t2 -ℤ t3) (wide (t2 -ℤ t3) d),
        in_range ((t3 -ℤ t0) -ℤ (t2 -ℤ t1)) (sub-Within (t3 -ℤ t0) (t2 -ℤ t1) (2 ^ 62) a b),
        in_range ((t1 -ℤ t0) +ℤ (t2 -ℤ t3)) (add-Within (t1 -ℤ t0) (t2 -ℤ t3) (2 ^ 62) c d),
      )
      refl

module _ {theta : ℤ} {d1 d2 : ℕ} {t0 t1 t2 t3 : ℤ} (x : IsExchange theta d1 d2 t0 t1 t2 t3) where
  abbrev ends : ℤ
  ends = (t1 -ℤ t0) +ℤ (t2 -ℤ t3)

  exact_rtt : (t3 -ℤ t0) -ℤ (t2 -ℤ t1) ≡ pos (d1 + d2)
  exact_rtt = eq_of_parts ((t3 -ℤ t0) -ℤ (t2 -ℤ t1)) (pos (d1 + d2)) (
      omega (
        arith,
        ap pos_part x.ping,
        ap neg_part x.ping,
        ap pos_part x.pong,
        ap neg_part x.pong,
        +ℤ_parts t0 theta,
        +ℤ_parts (t0 +ℤ theta) (pos d1),
        +ℤ_parts t3 theta,
        +ℤ_parts t2 (pos d2),
        -ℤ_parts t3 t0,
        -ℤ_parts t2 t1,
        -ℤ_parts (t3 -ℤ t0) (t2 -ℤ t1),
      ))

  -- The sum that is halved: twice the true offset, and the difference of the two ways.
  exact_ends :
      pos_part ends + neg_part theta + neg_part theta + d2
      ≡ neg_part ends + pos_part theta + pos_part theta + d1
  exact_ends = omega (
    arith,
    ap pos_part x.ping,
    ap neg_part x.ping,
    ap pos_part x.pong,
    ap neg_part x.pong,
    +ℤ_parts t0 theta,
    +ℤ_parts (t0 +ℤ theta) (pos d1),
    +ℤ_parts t3 theta,
    +ℤ_parts t2 (pos d2),
    -ℤ_parts t1 t0,
    -ℤ_parts t2 t3,
    +ℤ_parts (t1 -ℤ t0) (t2 -ℤ t3),
  )

  offset_low : theta +ℤ theta ≤ℤ half ends +ℤ half ends +ℤ pos (d1 + d2) +ℤ pos 1
  offset_low =
      let o = half ends in
      omega (
        arith,
        exact_ends,
        (half_lem ends).1,
        +ℤ_parts theta theta,
        +ℤ_parts o o,
        +ℤ_parts (o +ℤ o) (pos 1),
        +ℤ_parts (o +ℤ o) (pos (d1 + d2)),
        +ℤ_parts (o +ℤ o +ℤ pos (d1 + d2)) (pos 1),
      )

  offset_high : half ends +ℤ half ends ≤ℤ theta +ℤ theta +ℤ pos (d1 + d2)
  offset_high =
      let o = half ends in
      omega (
        arith,
        exact_ends,
        (half_lem ends).0,
        +ℤ_parts theta theta,
        +ℤ_parts o o,
        +ℤ_parts (theta +ℤ theta) (pos (d1 + d2)),
      )

-- The round-trip time is what both messages took, and twice the estimated offset is twice the true
-- one within that time, rounded down; whatever the two clocks show and however unlike the two
-- ways are, for times within ±2^61 µs.
pub sample_error :
    (theta : ℤ) (d1 d2 : ℕ) {t0 t1 t2 t3 : ℤ}
    → IsExchange theta d1 d2 t0 t1 t2 t3
    → let e = sample t0 t1 t2 t3 in
      (e.rtt ≡ pos (d1 + d2))
      × (theta +ℤ theta ≤ℤ e.offset +ℤ e.offset +ℤ e.rtt +ℤ pos 1)
      × (e.offset +ℤ e.offset ≤ℤ theta +ℤ theta +ℤ e.rtt)
sample_error theta d1 d2 {t0} {t1} {t2} {t3} x =
    let (h0, h1, h2, h3) = x.times in
    rw (sample_exact t0 t1 t2 t3 h0 h1 h2 h3, exact_rtt x) (refl, offset_low x, offset_high x)
