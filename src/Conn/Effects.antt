-- ===== src/Conn/Effects.antt =====
-- loomd/src/conn.rs: what a driver whose writes succeed does for a list of outputs.
use loom_host.Base.{ℕ, ◌+◌, ◌%◌, ◌^◌, ◌≡◌, refl, ap, ap₂, sym, ◌∙◌}
use loom_host.Base.{Bool, true, false, if◌then◌else◌, Bool-cases, ◌⊎◌, inl, inr, any}
use loom_host.Base.{List, [], ◌∷◌, ◌++◌, map, append-nil, append_assoc, ok}
use loom_host.Cbor.{FloatOps}
use loom_host.Cbor.Values.{Entries}
use loom_host.Control.{encode_frame}
use loom_host.Control.Codes
use loom_host.Session.{
  Output, send, start_media, request_idr, reconfigure, clock_pong, stats, close,
}
use loom_host.Session.Contract.{View, KeepsContract, after}
use loom_host.Config.{StreamSpec, HostCfg}
use loom_host.Conn.{
  Effect, wrote, finish, closed, spawned, idr_to, resized, reported, World, Driver, did, spawn,
  runs, tell, read_clock, pong_body, served, send_frame, act, drive,
}

abbrev pub ids : List StreamSpec → List ℕ
ids [] = []
ids (s ∷ ss) = s.stream_id ∷ ids ss

abbrev pub is_close : Output → Bool
is_close (close code) = true
is_close _ = false

-- `e` if a thread runs the stream.
abbrev pub if_runs : ℕ → List ℕ → Effect → List Effect
if_runs id media e = if runs id media then e ∷ [] else []

module _ (f : FloatOps) (w : World) (cfg : HostCfg) where
  -- What an output asks for, with the media threads that run and the readings made so far.
  abbrev pub outcome : Output → List ℕ → ℕ → List Effect
  outcome (send t body) media n = wrote (encode_frame f t body) ∷ []
  outcome (start_media multi) media n = map spawned (served cfg multi)
  outcome (request_idr id) media n = if_runs id media (idr_to id)
  outcome (reconfigure p) media n = if_runs 0 media (resized 0 p)
  outcome (clock_pong t0) media n =
      wrote (encode_frame f Codes.clock_pong (pong_body (w.now n) t0)) ∷ []
  outcome (stats r) media n = reported r ∷ []
  outcome (close code) media n = finish ∷ closed (code % 2 ^ 32) (Codes.name code) ∷ []

  abbrev pub media_after : Output → List ℕ → List ℕ
  media_after (start_media multi) media = media ++ ids (served cfg multi)
  media_after _ media = media

  abbrev pub readings_after : Output → ℕ → ℕ
  readings_after (clock_pong t0) n = n + 1
  readings_after _ n = n

  -- What the outputs ask for, in their order.
  abbrev pub effects : List Output → List ℕ → ℕ → List Effect
  effects [] media n = []
  effects (o ∷ os) media n =
      outcome o media n ++ effects os (media_after o media) (readings_after o n)

  -- A driver that did `es` and now has these threads and readings.
  pub record Did (d : Driver) (es : List Effect) (media : List ℕ) (n : ℕ) (d' : Driver)
      : Type 0 where
    pub logged : d'.log ≡ d.log ++ es
    pub threads : d'.media ≡ media
    pub clock : d'.readings ≡ n

  abbrev pub medias_after : List Output → List ℕ → List ℕ
  medias_after [] media = media
  medias_after (o ∷ os) media = medias_after os (media_after o media)

  abbrev pub clocks_after : List Output → ℕ → ℕ
  clocks_after [] n = n
  clocks_after (o ∷ os) n = clocks_after os (readings_after o n)

  -- `d'` is `d` after the outputs.
  abbrev pub Performs : List Output → Driver → Driver → Type 0
  Performs os d d' =
      Did d (effects os d.media d.readings) (medias_after os d.media) (clocks_after os d.readings)
        d'

  spawn_lem :
      (ss : List StreamSpec) (d : Driver)
      → (d' : Driver) × (spawn ss d ≡ (ok tt, d'))
        × Did d (map spawned ss) (d.media ++ ids ss) d.readings d'
  unfolding spawn
  spawn_lem [] d = (
    d,
    refl,
    record { logged = sym (append-nil d.log); threads = sym (append-nil d.media); clock = refl },
  )
  spawn_lem (s ∷ ss) d =
      let d1 : Driver = record d {
        media = d.media ++ s.stream_id ∷ [];
        log = d.log ++ spawned s ∷ [];
      } in
      let (d', e, h) = spawn_lem ss d1 in
      (
        d',
        e,
        record {
          logged = h.logged ∙ append_assoc d.log (spawned s ∷ []) (map spawned ss);
          threads = h.threads ∙ append_assoc d.media (s.stream_id ∷ []) (ids ss);
          clock = h.clock;
        },
      )

  -- A driver that logs what it was told, if a thread runs the stream.
  tell_lem :
      (id : ℕ) (e : Effect) (d : Driver)
      → (d' : Driver) × (tell id e d ≡ (ok tt, d'))
        × Did d (if_runs id d.media e) d.media d.readings d'
  unfolding tell did
  tell_lem id e d = elim (Bool-cases (runs id d.media)) [
    | inl y ↦ (
      record d { log = d.log ++ e ∷ [] },
      rw y refl,
      record { logged = rw y refl; threads = refl; clock = refl },
    )
    | inr n ↦ (
      d,
      rw n refl,
      record { logged = rw n (sym (append-nil d.log)); threads = refl; clock = refl },
    )
  ]

  module _ (ready : (n : ℕ) → w.write_ok n ≡ true) where
    pub send_frame_lem :
        (t : ℕ) (body : Entries) (d : Driver)
        → (d' : Driver) × (send_frame f w t body d ≡ (ok tt, d'))
          × Did d (wrote (encode_frame f t body) ∷ []) d.media d.readings d'
    unfolding send_frame did
    send_frame_lem t body d = (
      record d { writes = d.writes + 1; log = d.log ++ wrote (encode_frame f t body) ∷ [] },
      rw (ready d.writes) refl,
      record { logged = refl; threads = refl; clock = refl },
    )

    act_lem :
        (o : Output) (d : Driver)
        → (d' : Driver) × (act f w cfg o d ≡ (ok (is_close o), d'))
          × Did d
              (outcome o d.media d.readings)
              (media_after o d.media)
              (readings_after o d.readings)
              d'
    unfolding act
    act_lem (send t body) d = let (d', e, h) = send_frame_lem t body d in (d', rw e refl, h)
    act_lem (start_media multi) d =
        let (d', e, h) = spawn_lem (served cfg multi) d in (d', rw e refl, h)
    act_lem (request_idr id) d = let (d', e, h) = tell_lem id (idr_to id) d in (d', rw e refl, h)
    act_lem (reconfigure p) d = let (d', e, h) = tell_lem 0 (resized 0 p) d in (d', rw e refl, h)
    act_lem (clock_pong t0) d =
        let d1 : Driver = record d { readings = d.readings + 1 } in
        let (d', e, h) = send_frame_lem Codes.clock_pong (pong_body (w.now d.readings) t0) d1 in
        (
          d',
          unfold read_clock in rw e refl,
          record { logged = h.logged; threads = h.threads; clock = h.clock },
        )
    act_lem (stats r) d =
        unfold did in
        (
          record d { log = d.log ++ reported r ∷ [] },
          refl,
          record { logged = refl; threads = refl; clock = refl },
        )
    act_lem (close code) d =
        unfold did in
        (
          record d {
            log = (d.log ++ finish ∷ []) ++ closed (code % 2 ^ 32) (Codes.name code) ∷ [];
          },
          refl,
          record {
            logged =
                append_assoc d.log (finish ∷ []) (closed (code % 2 ^ 32) (Codes.name code) ∷ []);
            threads = refl;
            clock = refl;
          },
        )

    -- After a close the contract allows nothing.
    ends_at_close :
        (code : ℕ) (os : List Output) (v : View) → KeepsContract v (close code ∷ os) → os ≡ []
    ends_at_close code [] v h = refl
    ends_at_close code (send t body ∷ os) v h = cc
    ends_at_close code (start_media multi ∷ os) v h = cc
    ends_at_close code (request_idr id ∷ os) v h = cc
    ends_at_close code (reconfigure p ∷ os) v h = cc
    ends_at_close code (clock_pong t ∷ os) v h = cc
    ends_at_close code (stats r ∷ os) v h = cc
    ends_at_close code (close c ∷ os) v h = cc

    last_close :
        (o : Output) (os : List Output) (v : View)
        → KeepsContract v (o ∷ os)
        → (is_close o ≡ false) ⊎ (os ≡ [])
    last_close (close code) os v h = inr (ends_at_close code os v h)
    last_close (send t body) os v h = inl refl
    last_close (start_media multi) os v h = inl refl
    last_close (request_idr id) os v h = inl refl
    last_close (reconfigure p) os v h = inl refl
    last_close (clock_pong t) os v h = inl refl
    last_close (stats r) os v h = inl refl

    Did-then :
        (o : Output) (os : List Output) (d d1 d2 : Driver)
        → Did d
            (outcome o d.media d.readings)
            (media_after o d.media)
            (readings_after o d.readings)
            d1
        → Performs os d1 d2
        → Performs (o ∷ os) d d2
    Did-then o os d d1 d2 h k =
        let first = outcome o d.media d.readings in
        let rest = effects os (media_after o d.media) (readings_after o d.readings) in
        let same : effects os d1.media d1.readings ≡ rest = ap₂ (effects os) h.threads h.clock in
        record {
          logged = k.logged ∙ ap₂ (◌++◌) h.logged same ∙ append_assoc d.log first rest;
          threads = k.threads ∙ ap (medias_after os) h.threads;
          clock = k.clock ∙ ap (clocks_after os) h.clock;
        }

    -- The last step of `drive_lem`, from the first output to the others.
    drive_step :
        (o : Output) (os : List Output) (d : Driver)
        → ((d1 : Driver)
            → (d2 : Driver) × (drive f w cfg os d1 ≡ (ok (any is_close os), d2))
              × Performs os d1 d2)
        → (is_close o ≡ false) ⊎ (os ≡ [])
        → (d' : Driver) × (drive f w cfg (o ∷ os) d ≡ (ok (any is_close (o ∷ os)), d'))
          × Performs (o ∷ os) d d'
    unfolding drive
    drive_step o os d rest last =
        let (d1, e, h) = act_lem o d in
        elim (Bool-cases (is_close o)) [
          | inr go ↦ let (d2, e2, k) = rest d1 in (d2, rw (e, go) e2, Did-then o os d d1 d2 h k)
          | inl stop ↦
              let nil : os ≡ [] = elim last [ inl n ↦ cc | inr n ↦ n ] in
              (
                d1,
                rw (e, stop) refl,
                rw nil (
                    Did-then o [] d d1 d1 h
                      (record { logged = sym (append-nil d1.log); threads = refl; clock = refl })),
              )
        ]

    -- Outputs that keep the session's contract are carried out, all of them and in order.
    pub drive_lem :
        (os : List Output) (v : View) (d : Driver)
        → KeepsContract v os
        → (d' : Driver) × (drive f w cfg os d ≡ (ok (any is_close os), d')) × Performs os d d'
    unfolding drive
    drive_lem [] v d h =
        (d, refl, record { logged = sym (append-nil d.log); threads = refl; clock = refl })
    drive_lem (o ∷ os) v d h =
        drive_step o os d (λ d1. drive_lem os (after v o) d1 h.1) (last_close o os v h)
