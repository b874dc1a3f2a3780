-- ===== src/Session/Viewport.antt =====
-- loomd/src/session.rs: VIEWPORT requests (PROTOCOL.md §3.10, §8).
use loom_host.Base.{ℕ, ◌%◌, ◌≤◌, ◌<◌, min, max}
use loom_host.Base.{◌≡◌, arith}
use loom_host.Control.Codes
use loom_host.Session.{HostSession, min_dim, host_max_width, host_max_height, clamp_viewport}

-- A side of a viewport may be as large as the host and the client allow, and never less than the
-- floor of 640.
abbrev pub limit : ℕ → ℕ → ℕ
limit host client = max (min host client) min_dim

abbrev pub InRange : ℕ → ℕ → ℕ → Type 0
InRange host client n = (min_dim ≤ n) × (n ≤ limit host client) × (n % 2 ≡ 0)

-- Both sides that the clamp gives are even, at least 640, and within the limits of host and
-- client, a limit below 640 counting as 640. A size that is already so is kept, and so the clamp
-- is idempotent; and a client whose decode limit is below 640 on both sides is still offered 640.
pub clamp_viewport_lem :
    (s : HostSession) (w h : ℕ)
    → let size = clamp_viewport s w h in
      (InRange host_max_width s.client_max_width size.0
        × InRange host_max_height s.client_max_height size.1)
      × (InRange host_max_width s.client_max_width w
          → InRange host_max_height s.client_max_height h
          → size ≡ (w, h))
      × (s.client_max_width < min_dim → s.client_max_height < min_dim → size ≡ (min_dim, min_dim))
unfolding clamp_viewport
clamp_viewport_lem s w h =
    (ground arith, λ (lo, hi, ev) (lo', hi', ev'). ground arith, λ a b. ground arith)
