-- ===== src/Conn/Safety.antt =====
-- loomd/src/conn.rs: a driver of any session, in any world, leaves an orderly log.
use loom_host.Base.{ℕ, suc, ◌+◌, ◌%◌, ◌^◌, ◌≡◌, refl, ap, sym, ◌∙◌, subst, arith}
use loom_host.Base.{Bool, true, false, if◌then◌else◌, inl, inr}
use loom_host.Base.{List, [], ◌∷◌, ◌++◌, Result, ok, err}
use mathlib.Core.Option.{some-injective}
use loom_host.Cbor.{FloatOps}
use loom_host.Cbor.Values.{Entries}
use loom_host.Control.Codes
use loom_host.Session.{
  Output, send, start_media, request_idr, reconfigure, clock_pong, stats, close,
}
use loom_host.Session.Contract.{View, Allowed, KeepsContract, after, view}
use loom_host.Config.{StreamSpec, HostCfg}
use loom_host.Conn.{
  finish, closed, idr_to, resized, reported, Fault, Drive, World, Driver, did, tell, read_clock,
  pong_body, served, send_frame, act, drive,
}
use loom_host.Conn.Actions
use loom_host.Conn.Actions.{pure, ◌>>◌}
use loom_host.Conn.Effects.{ids}
use loom_host.Base.{zero, Option, some, none, Option-cases, Result-cases}
use loom_host.Cbor.Ciborium.{Ciborium}
use loom_host.Control.{decode_frame}
use loom_host.Session.{HostSession, is_closed, on_frame, new}
use loom_host.Session.Contract.{begin}
use loom_host.Session.Invariant.{Shown}
use loom_host.Session.Steps.{on_frame-Continues}
use loom_host.Session.Trace.{new-Shown}
use loom_host.Config.{primary, extra_stream_configs}
use loom_host.Conn.{
  ReadExact, read_frame, frame, eof, refuse, serve, session_loop, run_session, join_all, idle,
  error_body,
}
use loom_host.Conn.Order.{
  is_ok, IsOver, trail-append, Trail, start, IsOrderly, trail, IsOrderly-append, Started, Tracks,
  log_one, Leaves, did-Leaves, send_frame-Leaves, tell-Leaves, spawn-trail, served-IsPrefix,
}
use loom_host.Conn.Refine.{Shows-closed}

-- The session's start.
abbrev first : HostCfg → List ℕ → StreamSpec → HostSession
first cfg id spec = new cfg.name id spec.params (extra_stream_configs cfg)

module _ (cfg : HostCfg) (f : FloatOps) (w : World) where
  -- After an output: the loop goes on and the log answers to `v`, or the connection is closed, or the
  -- output failed with the connection open.
  abbrev pub Goes : View → Result Bool Fault × Driver → Type 0
  Goes v (ok true, d) = IsOver cfg true d
  Goes v (ok false, d) = Tracks cfg v d
  Goes v (err e, d) = IsOver cfg false d

  Goes-false :
      (v : View) (r : Result (Unit {0}) Fault) (d : Driver)
      → Leaves cfg v (r, d)
      → Goes v (Actions.after r (λ _. pure false) d)
  Goes-false v (ok u) d h = h
  Goes-false v (err e) d h = h

  -- Only two fields of a view are tracked.
  Tracks-same :
      (v v' : View) (d : Driver)
      → Tracks cfg v d
      → v.over ≡ v'.over
      → v.started ≡ v'.started
      → Tracks cfg v' d
  Tracks-same v v' d h o s = record {
    orderly = h.orderly;
    state = h.state ∙ ap (λ b. record { over = b; threads = d.media }) o;
    media = subst (λ b. Started cfg b d.media) s h.media;
  }

  send-Goes :
      (t : ℕ) (body : Entries) (v v' : View) (d : Driver)
      → Tracks cfg v d
      → v.over ≡ false
      → v.over ≡ v'.over
      → v.started ≡ v'.started
      → Goes v' ((send_frame f w t body >> pure false) d)
  send-Goes t body v v' d h o p q =
      let (r, d') = send_frame f w t body d in
      Goes-false v' r d'
        (send_frame-Leaves cfg f w t body v' d (Tracks-same v v' d h p q) (sym p ∙ o))

  act-Goes :
      (o : Output) (v : View) (d : Driver)
      → Tracks cfg v d
      → Allowed v o
      → Goes (after v o) (act f w cfg o d)
  unfolding act
  act-Goes (send t body) v d h p =
      send-Goes t body v (after v (send t body)) d h p.0 (ground arith) (ground arith)
  act-Goes (start_media multi) v d h (over, fresh, _, _) =
      let none_yet : d.media ≡ [] = subst (λ b. Started cfg b d.media) fresh h.media in
      let (d', e, o, t, m) =
        spawn-trail cfg f w (served cfg multi) d h.orderly
          (h.state ∙ ap (λ b. record { over = b; threads = d.media }) over)
          (let (zs, pre) = served-IsPrefix cfg multi in
            (zs, ap (λ l. (l ++ ids (served cfg multi)) ++ zs) none_yet ∙ pre)) in
      subst (λ z. Goes (after v (start_media multi)) (Actions.after z.0 (λ _. pure false) z.1))
        (sym e)
        (record {
          orderly = o;
          state = t ∙ ap (λ b. record { over = b; threads = d'.media }) (sym over);
          media = (multi, m ∙ ap (λ l. l ++ ids (served cfg multi)) none_yet);
        })
  act-Goes (request_idr id) v d h p =
      let (r, d') = tell id (idr_to id) d in
      Goes-false v r d' (tell-Leaves cfg f w id (idr_to id) v d h (λ y. (p.0, y)) refl)
  act-Goes (reconfigure params) v d h p =
      let (r, d') = tell 0 (resized 0 params) d in
      Goes-false (after v (reconfigure params)) r d' (
        tell-Leaves cfg f w 0 (resized 0 params) (after v (reconfigure params)) d
          (Tracks-same v _ d h refl refl) (λ y. (p.0, y)) refl)
  act-Goes (clock_pong t0) v d h p =
      unfold read_clock in
      send-Goes Codes.clock_pong (pong_body (w.now d.readings) t0) v v
        (record d { readings = d.readings + 1 })
        (record { orderly = h.orderly; state = h.state; media = h.media }) p refl refl
  act-Goes (stats r) v d h p =
      let (x, d') = did (reported r) d in
      Goes-false v x d' (did-Leaves cfg (reported r) v d h p.0 refl)
  act-Goes (close code) v d h p =
      unfold did in
      let t : Trail = record { over = v.over; threads = d.media } in
      let (a, b) = log_one cfg t d finish h.orderly h.state p in
      let (x, y) =
        log_one cfg t (record d { log = d.log ++ finish ∷ [] })
          (closed (code % 2 ^ 32) (Codes.name code)) a b p in
      (x, ap (λ (u : Trail). u.over) y)

  -- The rest of `drive` after an output.
  Goes-then :
      (v v' : View) (r : Result Bool Fault) (d : Driver) (rest : Drive Bool)
      → Goes v (r, d)
      → (Tracks cfg v d → Goes v' (rest d))
      → Goes v' (Actions.after r (λ over. if over then pure true else rest) d)
  Goes-then v v' (ok true) d rest h k = h
  Goes-then v v' (ok false) d rest h k = k h
  Goes-then v v' (err e) d rest h k = h

  pub drive-Goes :
      (os : List Output) (v : View) (d : Driver)
      → Tracks cfg v d
      → KeepsContract v os
      → Goes (view v os) (drive f w cfg os d)
  unfolding drive
  drive-Goes [] v d h k = h
  drive-Goes (o ∷ os) v d h (k, ks) =
      let (r, d') = act f w cfg o d in
      let rest = drive-Goes os (after v o) d' in
      Goes-then (after v o) (view v (o ∷ os)) r d' (drive f w cfg os) (act-Goes o v d h k)
        (λ t. rest t ks)

  -- The loop is over with the connection closed, or has failed with it open.
  abbrev pub Finishes : Result (Unit {0}) Fault × Driver → Type 0
  Finishes (r, d) = IsOver cfg (is_ok r) d

  serve-Finishes_step :
      (v : View) (r : Result Bool Fault) (d : Driver) (shut : Bool) (rest : Drive (Unit {0}))
      → Goes v (r, d)
      → v.over ≡ shut
      → (Tracks cfg v d → shut ≡ false → Finishes (rest d))
      → Finishes
          (Actions.after r (λ over. if over then pure tt else if shut then pure tt else rest) d)
  serve-Finishes_step v (ok true) d shut rest h o k = h
  serve-Finishes_step v (ok false) d true rest h o k =
      (h.orderly, ap (λ (t : Trail). t.over) h.state ∙ o)
  serve-Finishes_step v (ok false) d false rest h o k = k h refl
  serve-Finishes_step v (err e) d shut rest h o k = h

  refuse-Finishes :
      (v : View) (d : Driver) → Tracks cfg v d → v.over ≡ false → Finishes (refuse f w d)
  unfolding refuse did
  refuse-Finishes v d h o =
      let sent = send_frame-Leaves cfg f w Codes.error (error_body Codes.violation) v d h o in
      let (r, d') = send_frame f w Codes.error (error_body Codes.violation) d in closing r d' sent
    where
      closing :
          (r : Result (Unit {0}) Fault) (d' : Driver)
          → Leaves cfg v (r, d')
          → Finishes (
              Actions.after r
                (λ _. did finish >> did (closed Codes.violation (Codes.ascii "bad frame")))
                d')
      closing (err e) d' k = k
      closing (ok u) d' k =
          let t : Trail = record { over = v.over; threads = d'.media } in
          let (a, b) = log_one cfg t d' finish k.orderly k.state o in
          let (x, y) =
            log_one cfg t (record d' { log = d'.log ++ finish ∷ [] })
              (closed Codes.violation (Codes.ascii "bad frame")) a b o in
          (x, ap (λ (z : Trail). z.over) y)

  module _ {R : Type 0} (read_exact : ℕ → R → ReadExact × R)
      (from_reader : List ℕ → Option Ciborium) where
    serve-Finishes :
        (fuel : ℕ) (r : R) (s : HostSession) (v : View) (d : Driver)
        → Shown s v
        → is_closed s.state ≡ false
        → Tracks cfg v d
        → Finishes (serve f w read_exact from_reader cfg fuel r s d)
    unfolding serve did
    serve-Finishes zero r s v d sh o h =
        (h.orderly, ap (λ (t : Trail). t.over) h.state ∙ Shows-closed s.state s v sh ∙ o)
    serve-Finishes (suc fuel) r s v d sh o h =
        let over : v.over ≡ false = Shows-closed s.state s v sh ∙ o in
        elim (Result-cases (read_frame read_exact r).0) [
          | inr (e, q) ↦ rw (serve, q) (h.orderly, ap (λ (t : Trail). t.over) h.state ∙ over)
          | inl (eof, q) ↦
              let (x, y) =
                log_one cfg (record { over = v.over; threads = d.media }) d
                  (closed Codes.no_error (Codes.ascii "eof")) h.orderly h.state over in
              rw (serve, q) (x, ap (λ (z : Trail). z.over) y)
          | inl (frame bytes, q) ↦ elim (Result-cases (decode_frame from_reader bytes)) [
            | inr (e, b) ↦ rw (serve, q, b) (refuse-Finishes v d h over)
            | inl (x, g) ↦
                let r' = (read_frame read_exact r).1 in
                let (s', out) = on_frame x s in
                let (keeps, sh') = on_frame-Continues x s v sh in
                let (res, d') = drive f w cfg out d in
                let ih = serve-Finishes fuel r' s' (view v out) d' sh' in
                rw (serve, q, g)
                  (serve-Finishes_step (view v out) res d' (is_closed s'.state)
                    (serve f w read_exact from_reader cfg fuel r' s') (drive-Goes out v d h keeps)
                    (Shows-closed s'.state s' (view v out) sh') (λ t shut. ih shut t))
          ]
        ]

    joins : (t : Trail) (ms : List ℕ) → IsOrderly cfg t (join_all ms)
    unfolding join_all
    joins t [] = tt
    joins t (m ∷ ms) = (tt, joins t ms)

    joins_trail : (t : Trail) (ms : List ℕ) → trail t (join_all ms) ≡ t
    unfolding join_all
    joins_trail t [] = refl
    joins_trail t (m ∷ ms) = joins_trail t ms

    joined_well :
        (r : Result (Unit {0}) Fault) (d : Driver)
        → Finishes (r, d)
        → Finishes (r, record d { media = []; log = d.log ++ join_all d.media })
    joined_well r d (orderly, over) =
        let t = trail start d.log in
        (
          IsOrderly-append cfg start d.log (join_all d.media) orderly (joins t d.media),
          ap (λ (z : Trail). z.over)
                (trail-append start d.log (join_all d.media) ∙ joins_trail t d.media)
              ∙ over,
        )

    session-Finishes :
        (fuel : ℕ) (opened : Option R) (id : List ℕ) (res : Result (Unit {0}) Fault) (d : Driver)
        → run_session f w read_exact from_reader cfg fuel opened id ≡ some (res, d)
        → Finishes (res, d)
    unfolding run_session session_loop join_all new
    session-Finishes fuel none id res d h = elim (Option-cases (primary cfg)) [
      | inl e ↦
          let k = rw (run_session, session_loop, e) at h in
          subst Finishes (some-injective _ _ k) (tt, refl)
      | inr (spec, e) ↦
          let k = rw (run_session, session_loop, e) at h in
          subst Finishes (some-injective _ _ k) (tt, refl)
    ]
    session-Finishes fuel (some r) id res d h = elim (Option-cases (primary cfg)) [
      | inl e ↦ let k = rw (run_session, session_loop, e) at h in cc
      | inr (spec, e) ↦
          let k = rw (run_session, session_loop, e) at h in
          let s = first cfg id spec in
          let served_log =
            serve-Finishes fuel r s begin idle
              (new-Shown cfg.name id spec.params (extra_stream_configs cfg)) refl
              (record { orderly = tt; state = refl; media = refl }) in
          let (r1, d1) = serve f w read_exact from_reader cfg fuel r s idle in
          subst Finishes (some-injective _ _ k) (joined_well r1 d1 served_log)
    ]

    -- Whatever the client sends, whichever writes fail and however the reads go, what the driver
    -- did is orderly: nothing but the joins of the threads follows a close, the threads that it
    -- started are those of the first streams to serve, one for each and in their order, and an IDR
    -- request or a resize goes only to a thread that was started before.
    pub run_session-IsOrderly :
        (fuel : ℕ) (opened : Option R) (id : List ℕ) (res : Result (Unit {0}) Fault) (d : Driver)
        → run_session f w read_exact from_reader cfg fuel opened id ≡ some (res, d)
        → IsOrderly cfg start d.log
    run_session-IsOrderly fuel opened id res d h = (session-Finishes fuel opened id res d h).0

    -- Over whatever bytes, with whatever writes failing, a session that returns has closed its connection, and one that
    -- fails, by a fault of the stream or by a frame over the limit, has not: the joins of its media threads, which
    -- wait for the close, then find the connection open.
    pub run_session-closes :
        (fuel : ℕ) (opened : Option R) (id : List ℕ) (res : Result (Unit {0}) Fault) (d : Driver)
        → run_session f w read_exact from_reader cfg fuel opened id ≡ some (res, d)
        → (trail start d.log).over ≡ is_ok res
    run_session-closes fuel opened id res d h = (session-Finishes fuel opened id res d h).1
