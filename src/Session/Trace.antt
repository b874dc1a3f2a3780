-- ===== src/Session/Trace.antt =====
-- loomd/src/session.rs: a whole session, frame after frame.
use loom_host.Base.{ℕ, ◌≡◌, refl, sym, subst}
use loom_host.Base.{List, [], ◌∷◌}
use loom_host.Control.{Decoded, message, ignored}
use loom_host.Session.{
  HostSession, MediaParams, StreamConfig, closed, new, on_frame, on_message, run,
}
use loom_host.Session.Contract.{View, begin, KeepsContract, view, KeepsContract-append, view-append}
use loom_host.Session.Invariant.{Shown, Continues}
use loom_host.Session.Steps.{on_frame-Continues}

run-Continues :
    (ds : List Decoded) (s : HostSession) (v : View) → Shown s v → Continues v (run ds s)
unfolding run
run-Continues [] s v h = (tt, h)
run-Continues (d ∷ ds) s v h =
    let (log, shown) = on_frame-Continues d s v h in
    let (s', out) = on_frame d s in
    let (log', shown') = run-Continues ds s' (view v out) shown in
    let rest = (run ds s').1 in
    (
      KeepsContract-append v out rest log log',
      subst (λ w. Shown (run ds s').0 w) (sym (view-append v out rest)) shown',
    )

pub new-Shown :
    (name id : List ℕ) (p : MediaParams) (extra : List StreamConfig)
    → Shown (new name id p extra) begin
unfolding new
new-Shown name id p extra = (refl, refl, refl, refl, refl)

-- Whatever frames a client sends, in whatever order, the outputs of a session keep the contract of
-- its driver: nothing follows the close; media starts at most once, after the CONFIG of
-- generation 1; every CONFIG announces the generation after the last one, and none is sent while
-- one is in flight; IDR requests, reports and resizes come only once media has started; and
-- a resize answers the CONFIG in flight, with the very size that it announced.
pub run-KeepsContract :
    (name id : List ℕ) (p : MediaParams) (extra : List StreamConfig) (ds : List Decoded)
    → KeepsContract begin (run ds (new name id p extra)).1
run-KeepsContract name id p extra ds =
    (run-Continues ds (new name id p extra) begin (new-Shown name id p extra)).0

-- A closed session ignores every frame.
pub run_closed : (ds : List Decoded) (s : HostSession) → s.state ≡ closed → run ds s ≡ (s, [])
unfolding run
run_closed [] s e = refl
run_closed (d ∷ ds) s e = rw (ignores d) (rw (run_closed ds s e))
  where
    ignores : (d : Decoded) → on_frame d s ≡ (s, [])
    ignores (message t body) = unfold on_frame on_message in rw e
    ignores ignored = unfold on_frame in refl
