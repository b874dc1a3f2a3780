-- ===== src/Conn/Order.antt =====
-- loomd/src/conn.rs: what a driver does in any world, whatever the client sends and whichever writes
-- fail: nothing after the close but the joins, and a request only to a thread that runs.
use loom_host.Base.{ℕ, ◌+◌, ◌≡◌, refl, ap, sym, ◌∙◌, subst}
use loom_host.Base.{Bool, true, false, Bool-cases, inl, inr}
use loom_host.Base.{List, [], ◌∷◌, ◌++◌, take, append-nil, append_assoc, Result, ok, err}
use loom_host.Cbor.{FloatOps}
use loom_host.Cbor.Values.{Entries}
use loom_host.Control.{encode_frame}
use loom_host.Session.Contract.{View}
use loom_host.Config.{StreamSpec, HostCfg}
use loom_host.Conn.{
  Effect, wrote, closed, spawned, idr_to, resized, join_called, Fault, World, Driver, did, spawn,
  runs, tell, served, send_frame,
}
use loom_host.Conn.Effects.{ids}

abbrev pub is_ok : {A : Type 0} → Result A Fault → Bool
is_ok (ok a) = true
is_ok (err e) = false

-- What a log shows so far: whether the connection is closed, and the threads that were started.
pub record Trail : Type 0 where
  pub over : Bool
  pub threads : List ℕ

abbrev pub start : Trail
start = record { over = false; threads = [] }

-- The threads are those of the first streams to serve, one for each and in their order.
abbrev pub IsPrefix : List ℕ → List ℕ → Type 0
IsPrefix xs ys = (zs : List ℕ) × (xs ++ zs ≡ ys)

abbrev pub Permits : HostCfg → Trail → Effect → Type 0
Permits cfg t (spawned s) =
    (t.over ≡ false) × IsPrefix (t.threads ++ s.stream_id ∷ []) (ids cfg.streams)
Permits cfg t (idr_to id) = (t.over ≡ false) × (runs id t.threads ≡ true)
Permits cfg t (resized id p) = (t.over ≡ false) × (runs id t.threads ≡ true)
Permits cfg t (join_called id) = Unit {0}
Permits cfg t e = t.over ≡ false

abbrev pub next : Trail → Effect → Trail
next t (spawned s) = record t { threads = t.threads ++ s.stream_id ∷ [] }
next t (closed code reason) = record t { over = true }
next t e = t

abbrev pub IsOrderly : HostCfg → Trail → List Effect → Type 0
IsOrderly cfg t [] = Unit {0}
IsOrderly cfg t (e ∷ es) = Permits cfg t e × IsOrderly cfg (next t e) es

abbrev pub trail : Trail → List Effect → Trail
trail t [] = t
trail t (e ∷ es) = trail (next t e) es

pub IsOrderly-append :
    (cfg : HostCfg) (t : Trail) (xs ys : List Effect)
    → IsOrderly cfg t xs
    → IsOrderly cfg (trail t xs) ys
    → IsOrderly cfg t (xs ++ ys)
IsOrderly-append cfg t [] ys h k = k
IsOrderly-append cfg t (x ∷ xs) ys (h, hs) k = (h, IsOrderly-append cfg (next t x) xs ys hs k)

pub trail-append : (t : Trail) (xs ys : List Effect) → trail t (xs ++ ys) ≡ trail (trail t xs) ys
trail-append t [] ys = refl
trail-append t (x ∷ xs) ys = trail-append (next t x) xs ys

module _ (cfg : HostCfg) where
  -- Media is not started yet, or all the streams to serve are.
  abbrev pub Started : Bool → List ℕ → Type 0
  Started false media = media ≡ []
  Started true media = (multi : Bool) × (media ≡ ids (served cfg multi))

  -- The driver's log answers to what the session's outputs show.
  pub record Tracks (v : View) (d : Driver) : Type 0 where
    pub orderly : IsOrderly cfg start d.log
    pub state : trail start d.log ≡ record { over = v.over; threads = d.media }
    pub media : Started v.started d.media

  -- One more effect.
  pub log_one :
      (t : Trail) (d : Driver) (e : Effect)
      → IsOrderly cfg start d.log
      → trail start d.log ≡ t
      → Permits cfg t e
      → IsOrderly cfg start (d.log ++ e ∷ []) × (trail start (d.log ++ e ∷ []) ≡ next t e)
  log_one t d e h k p = (
    IsOrderly-append cfg start d.log (e ∷ []) h (subst (λ u. Permits cfg u e) (sym k) p, tt),
    trail-append start d.log (e ∷ []) ∙ ap (λ u. next u e) k,
  )

  -- An orderly log, with the connection closed or not.
  abbrev pub IsOver : Bool → Driver → Type 0
  IsOver b d = IsOrderly cfg start d.log × ((trail start d.log).over ≡ b)

  -- After an action: the log answers to `v`, or the action failed with the connection open.
  abbrev pub Leaves : {A : Type 0} → View → Result A Fault × Driver → Type 0
  Leaves v (ok a, d) = Tracks v d
  Leaves v (err e, d) = IsOver false d

  -- An effect that changes neither the threads nor the state of the connection.
  pub did-Leaves :
      (e : Effect) (v : View) (d : Driver)
      → Tracks v d
      → Permits cfg (record { over = v.over; threads = d.media }) e
      → next (record { over = v.over; threads = d.media }) e
        ≡ record { over = v.over; threads = d.media }
      → Leaves v (did e d)
  unfolding did
  did-Leaves e v d h p n =
      let (a, b) = log_one (record { over = v.over; threads = d.media }) d e h.orderly h.state p in
      record { orderly = a; state = b ∙ n; media = h.media }

  module _ (f : FloatOps) (w : World) where
    pub send_frame-Leaves :
        (t : ℕ) (body : Entries) (v : View) (d : Driver)
        → Tracks v d
        → v.over ≡ false
        → Leaves v (send_frame f w t body d)
    unfolding send_frame
    send_frame-Leaves t body v d h o = elim (Bool-cases (w.write_ok d.writes)) [
      | inl y ↦ rw y (
          did-Leaves (wrote (encode_frame f t body)) v (record d { writes = d.writes + 1 })
            (record { orderly = h.orderly; state = h.state; media = h.media }) o refl)
      | inr n ↦ rw n (h.orderly, ap (λ (t : Trail). t.over) h.state ∙ o)
    ]

    pub tell-Leaves :
        (id : ℕ) (e : Effect) (v : View) (d : Driver)
        → Tracks v d
        → (runs id d.media ≡ true → Permits cfg (record { over = v.over; threads = d.media }) e)
        → next (record { over = v.over; threads = d.media }) e
          ≡ record { over = v.over; threads = d.media }
        → Leaves v (tell id e d)
    unfolding tell
    tell-Leaves id e v d h p n = elim (Bool-cases (runs id d.media)) [
      | inl y ↦ rw y (did-Leaves e v d h (p y) n)
      | inr k ↦ rw k h
    ]

    -- The threads of a fan-out, started one after the other.
    pub spawn-trail :
        (ss : List StreamSpec) (d : Driver)
        → IsOrderly cfg start d.log
        → trail start d.log ≡ record { over = false; threads = d.media }
        → IsPrefix (d.media ++ ids ss) (ids cfg.streams)
        → (d' : Driver) × (spawn ss d ≡ (ok tt, d'))
          × IsOrderly cfg start d'.log
          × (trail start d'.log ≡ record { over = false; threads = d'.media })
          × (d'.media ≡ d.media ++ ids ss)
    unfolding spawn
    spawn-trail [] d h k pre = (d, refl, h, k, sym (append-nil d.media))
    spawn-trail (s ∷ ss) d h k (zs, pre) =
        let (a, b) =
          log_one (record { over = false; threads = d.media }) d (spawned s) h k
            (
              refl,
              (
                ids ss ++ zs,
                append_assoc d.media (s.stream_id ∷ []) (ids ss ++ zs)
                    ∙ sym (append_assoc d.media (s.stream_id ∷ ids ss) zs)
                    ∙ pre,
              ),
            ) in
        let d1 : Driver = record d {
          media = d.media ++ s.stream_id ∷ [];
          log = d.log ++ spawned s ∷ [];
        } in
        let (d', e, o, t, m) =
          spawn-trail ss d1 a b
            (zs, ap (λ l. l ++ zs) (append_assoc d.media (s.stream_id ∷ []) (ids ss)) ∙ pre) in
        (d', e, o, t, m ∙ append_assoc d.media (s.stream_id ∷ []) (ids ss))

  pub served-IsPrefix : (multi : Bool) → IsPrefix (ids (served cfg multi)) (ids cfg.streams)
  served-IsPrefix true = ([], append-nil _)
  served-IsPrefix false = one cfg.streams
    where
      one : (ss : List StreamSpec) → IsPrefix (ids (take 1 ss)) (ids ss)
      one [] = ([], refl)
      one (x ∷ xs) = (ids xs, refl)
