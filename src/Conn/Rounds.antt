-- ===== src/Conn/Rounds.antt =====
-- loomd/src/conn.rs: the loop of a session ends. Each round takes 4 bytes of the stream at least, so
-- as many rounds as there are bytes, and one, are enough.
use loom_host.Base.{ℕ, zero, suc, ◌<◌, ◌≡◌, ◌≢◌, refl, ap, ◌∙◌, arith}
use loom_host.Base.{Bool, true, false, if◌then◌else◌, inl, inr, Option, some}
use loom_host.Base.{List, [], ◌∷◌, ◌++◌, length, Result, ok, err, Result-cases}
use loom_host.Cbor.{FloatOps}
use loom_host.Cbor.Ciborium.{Ciborium}
use loom_host.Cbor.Values.{Entries}
use loom_host.Control.{decode_frame}
use loom_host.Session.{
  HostSession, Output, send, start_media, request_idr, reconfigure, clock_pong, stats, close,
  is_closed, on_frame, new,
}
use loom_host.Config.{HostCfg, StreamSpec, primary, extra_stream_configs}
use loom_host.Conn.{
  ReadExact, Fault, Drive, finish, no_fuel, Effect, World, Driver, frame, eof, did, spawn, tell,
  read_clock, send_frame, act, drive, refuse, serve, session_loop, run_session, join_all, idle,
  read_frame,
}
use loom_host.Conn.Actions.{pure, after, ◌>>=◌}
use loom_host.Conn.Order.{is_ok, start, trail}
use loom_host.Conn.Safety.{run_session-closes}
use loom_host.Conn.Stream.{IsRecv, read_frame-shrinks}

-- An action that does not run out of rounds, in whatever state.
pub record Ends {A : Type 0} (m : Drive A) : Type 0 where
  pub at : (d : Driver) → (m d).0 ≢ err no_fuel

after-Ends :
    {A B : Type 0} (r : Result A Fault) (g : A → Drive B) (d : Driver)
    → r ≢ err no_fuel
    → ((a : A) → Ends (g a))
    → (after r g d).0 ≢ err no_fuel
after-Ends (ok a) g d h k = (k a).at d
after-Ends (err e) g d h k = λ bad. h cc

Ends-bind :
    {A B : Type 0} (m : Drive A) (g : A → Drive B)
    → Ends m
    → ((a : A) → Ends (g a))
    → Ends (m >>= g)
Ends-bind m g h k = record { at = λ d. after-Ends (m d).0 g (m d).1 (h.at d) k }

Ends-pure : {A : Type 0} (a : A) → Ends {A = A} (pure a)
Ends-pure a = record { at = λ d h. cc }

did-Ends : (e : Effect) → Ends (did e)
unfolding did
did-Ends e = record { at = λ d h. cc }

spawned_well : (ss : List StreamSpec) (d : Driver) → (spawn ss d).0 ≢ err no_fuel
unfolding spawn
spawned_well [] d h = cc
spawned_well (s ∷ ss) d h = spawned_well ss _ h

spawn-Ends : (ss : List StreamSpec) → Ends (spawn ss)
spawn-Ends ss = record { at = spawned_well ss }

tell-Ends : (id : ℕ) (e : Effect) → Ends (tell id e)
unfolding tell did
tell-Ends id e = record { at = λ d h. ground arith }

read_clock-Ends : (w : World) → Ends (read_clock w)
unfolding read_clock
read_clock-Ends w = record { at = λ d h. cc }

module _ (f : FloatOps) (w : World) where
  send_frame-Ends : (t : ℕ) (body : Entries) → Ends (send_frame f w t body)
  unfolding send_frame did
  send_frame-Ends t body = record { at = λ d h. ground arith }

  act-Ends : (cfg : HostCfg) (o : Output) → Ends (act f w cfg o)
  unfolding act
  act-Ends cfg (send t body) = Ends-bind _ _ (send_frame-Ends t body) (λ a. Ends-pure false)
  act-Ends cfg (start_media multi) = Ends-bind _ _ (spawn-Ends _) (λ a. Ends-pure false)
  act-Ends cfg (request_idr id) = Ends-bind _ _ (tell-Ends id _) (λ a. Ends-pure false)
  act-Ends cfg (reconfigure p) = Ends-bind _ _ (tell-Ends 0 _) (λ a. Ends-pure false)
  act-Ends cfg (clock_pong t0) =
      Ends-bind _ _ (read_clock-Ends w)
        (λ now. Ends-bind _ _ (send_frame-Ends _ _) (λ a. Ends-pure false))
  act-Ends cfg (stats r) = Ends-bind _ _ (did-Ends _) (λ a. Ends-pure false)
  act-Ends cfg (close code) =
      Ends-bind _ _ (did-Ends finish) (λ a. Ends-bind _ _ (did-Ends _) (λ b. Ends-pure true))

  Ends-if : {A : Type 0} (b : Bool) (m n : Drive A) → Ends m → Ends n → Ends (if b then m else n)
  Ends-if true m n h k = h
  Ends-if false m n h k = k

  drive-Ends : (cfg : HostCfg) (os : List Output) → Ends (drive f w cfg os)
  unfolding drive
  drive-Ends cfg [] = Ends-pure false
  drive-Ends cfg (o ∷ os) =
      let rest = drive-Ends cfg os in
      Ends-bind _ _ (act-Ends cfg o) (λ over. Ends-if over _ _ (Ends-pure true) rest)

  refuse-Ends : Ends (refuse f w)
  unfolding refuse
  refuse-Ends =
      Ends-bind _ _ (send_frame-Ends _ _) (λ a. Ends-bind _ _ (did-Ends _) (λ b. did-Ends _))

  module _ {R : Type 0} (read_exact : ℕ → R → ReadExact × R) (content : R → List ℕ)
      (ends : R → Bool) (recv : IsRecv read_exact content ends)
      (from_reader : List ℕ → Option Ciborium) (cfg : HostCfg) where
    read_frame-Ends : (r : R) → (read_frame read_exact r).0 ≢ err no_fuel
    unfolding read_frame
    read_frame-Ends r h = ground arith

    serve-Ends :
        (fuel : ℕ) (r : R) (s : HostSession)
        → length (content r) < fuel
        → Ends (serve f w read_exact from_reader cfg fuel r s)
    unfolding serve
    serve-Ends zero r s h = absurd (omega arith)
    serve-Ends (suc fuel) r s h = elim (Result-cases (read_frame read_exact r).0) [
      | inr (e, q) ↦
          rw (serve, q)
            (record { at = λ d bad. let k : e ≡ no_fuel = cc in read_frame-Ends r (q ∙ ap err k) })
      | inl (eof, q) ↦ rw (serve, q) (did-Ends _)
      | inl (frame bytes, q) ↦
          let r' = (read_frame read_exact r).1 in
          let shorter =
            read_frame-shrinks read_exact content ends recv r r' bytes (λ i. (q i, r')) in
          elim (Result-cases (decode_frame from_reader bytes)) [
            | inr (e, b) ↦ rw (serve, q, b) refuse-Ends
            | inl (x, g) ↦
                let s' = (on_frame x s).0 in
                let rest = serve-Ends fuel r' s' (omega (arith, shorter)) in
                rw (serve, q, g)
                  (Ends-bind _ _ (drive-Ends cfg (on_frame x s).1) (λ over.
                    Ends-if over _ _ (Ends-pure tt)
                      (Ends-if (is_closed s'.state) _ _ (Ends-pure tt) rest)))
          ]
    ]

    -- Over whatever bytes, with whatever writes failing, as many rounds as the stream has bytes, and one, are enough
    -- for the control loop; if there is a stream to serve. If the session returns, its log closes the connection; if
    -- it fails, by a fault of the stream, a failed write or a frame over the limit, its log does not, so that
    -- the joins which follow are called with the connection not closed by the driver.
    pub run_session-ends :
        (fuel : ℕ) (r : R) (id : List ℕ) (spec : StreamSpec)
        → primary cfg ≡ some spec
        → length (content r) < fuel
        → (res : Result (Unit {0}) Fault) × (d : Driver) × (run_session f w read_exact from_reader
              cfg fuel
              (some r)
              id
            ≡ some (res, d))
          × (res ≢ err no_fuel)
          × ((trail start d.log).over ≡ is_ok res)
    unfolding run_session session_loop
    run_session-ends fuel r id spec e h =
        let s = new cfg.name id spec.params (extra_stream_configs cfg) in
        let (res, d) = serve f w read_exact from_reader cfg fuel r s idle in
        let end : Driver = record d { media = []; log = d.log ++ join_all d.media } in
        let returns : run_session f w read_exact from_reader cfg fuel (some r) id
            ≡ some (res, end) =
          rw (run_session, session_loop, e) refl in
        (
          res,
          end,
          returns,
          (serve-Ends fuel r s h).at idle,
          run_session-closes cfg f w read_exact from_reader fuel (some r) id res end returns,
        )
