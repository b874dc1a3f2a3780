-- ===== src/Media/Injector.antt =====
-- loomd/src/media/mod.rs: what is sent of a frame's datagrams.
use loom_host.Base.{ℕ, zero, suc, ◌≤◌, ◌≡◌, refl, ap, arith}
use loom_host.Base.{false, Bool-cases, inl, inr, List, [], ◌∷◌, length, All}
use loom_host.Media.{DropInjector, should_drop, send_loop}

no_loss : (d : DropInjector) → d.percent ≡ 0 → should_drop d ≡ (d, false)
unfolding should_drop
no_loss d h = ground arith

-- Without injected loss, and where the connection takes every datagram, all are sent in order.
pub send_loop_lossless :
    (dgs : List (List ℕ)) (takes : ℕ) (d : DropInjector)
    → d.percent ≡ 0
    → length dgs ≤ takes
    → send_loop dgs takes d ≡ (d, dgs)
unfolding send_loop
send_loop_lossless [] takes d none h = refl
send_loop_lossless (dg ∷ dgs) zero d none h = absurd (omega arith)
send_loop_lossless (dg ∷ dgs) (suc left) d none h =
    let rest = send_loop_lossless dgs left d none (omega arith) in
    let keep : (should_drop d).1 ≡ false = ap (λ r. r.1) (no_loss d none) in
    let same : (should_drop d).0 ≡ d = ap (λ r. r.0) (no_loss d none) in
    rw (send_loop, keep, same, rest) refl

-- What is sent is of the frame.
pub All-send_loop {ℓ} :
    (P : List ℕ → Type ℓ) (dgs : List (List ℕ)) (takes : ℕ) (d : DropInjector)
    → All P dgs
    → All P (send_loop dgs takes d).1
unfolding send_loop
All-send_loop P [] takes d h = tt
All-send_loop P (dg ∷ dgs) zero d (h, hs) = elim (Bool-cases (should_drop d).1) [
  | inl e ↦ rw (send_loop, e) (All-send_loop P dgs zero (should_drop d).0 hs)
  | inr e ↦ rw (send_loop, e) tt
]
All-send_loop P (dg ∷ dgs) (suc left) d (h, hs) = elim (Bool-cases (should_drop d).1) [
  | inl e ↦ rw (send_loop, e) (All-send_loop P dgs (suc left) (should_drop d).0 hs)
  | inr e ↦ rw (send_loop, e) (h, All-send_loop P dgs left (should_drop d).0 hs)
]
