-- ===== src/Conn/Refine.antt =====
-- loomd/src/conn.rs with session.rs and control.rs: a stream of frames is served as the session
-- answers their messages, output after output.
use loom_host.Base.{ℕ, suc, ◌≤◌, ◌≡◌, refl, ap, ap₂, sym, ◌∙◌, arith}
use loom_host.Base.{Bool, true, false, ◌||◌, if◌then◌else◌, Bool-cases, inl, inr, any, Option}
use loom_host.Base.{List, [], ◌∷◌, ◌++◌, length, append-nil, append_assoc, ok}
use loom_host.Cbor.{FloatOps}
use loom_host.Cbor.Ciborium.{Ciborium}
use loom_host.Control.{Decoded, max_frame_body, decode_frame}
use loom_host.Session.{
  State, wait_hello, wait_config_ack, streaming, Output, send, close, HostSession, is_closed,
  on_frame, run,
}
use loom_host.Session.Contract.{View, view, after}
use loom_host.Session.Invariant.{Shows, Shown}
use loom_host.Session.Steps.{on_frame-Continues}
use loom_host.Session.Trace.{run_closed}
use loom_host.Config.{HostCfg}
use loom_host.Conn.{ReadExact, World, Driver, read_frame, frame, drive, serve}
use loom_host.Conn.Effects.{
  Performs, effects, medias_after, clocks_after, outcome, media_after, readings_after, is_close,
  drive_lem,
}
use loom_host.Conn.Stream.{IsRecv, framed, read_frame-framed}

over-after : (v : View) (o : Output) → (after v o).over ≡ (v.over || is_close o)
over-after v (send t body) = ground arith
over-after v (close code) = ground arith
over-after v o = ground arith

or_assoc : (a b c : Bool) → ((a || b) || c) ≡ (a || (b || c))
or_assoc true b c = refl
or_assoc false b c = refl

over-view : (v : View) (os : List Output) → (view v os).over ≡ (v.over || any is_close os)
over-view v [] = ground arith
over-view v (o ∷ os) =
    over-view (after v o) os
    ∙ ap (λ b. b || any is_close os) (over-after v o)
    ∙ or_assoc v.over (is_close o) (any is_close os)

pub Shows-closed : (st : State) (s : HostSession) (v : View) → Shows st s v → v.over ≡ is_closed st
Shows-closed wait_hello s v h = h.0
Shows-closed wait_config_ack s v h = h.0
Shows-closed streaming s v h = h.0
Shows-closed State.closed s v h = h

module _ (f : FloatOps) (w : World) (cfg : HostCfg) where
  effects-append :
      (xs ys : List Output) (media : List ℕ) (n : ℕ)
      → effects f w cfg (xs ++ ys) media n
        ≡ effects f w cfg xs media n
          ++ effects f w cfg ys (medias_after f w cfg xs media) (clocks_after f w cfg xs n)
  effects-append [] ys media n = refl
  effects-append (x ∷ xs) ys media n =
      ap (λ l. outcome f w cfg x media n ++ l)
        (effects-append xs ys (media_after f w cfg x media) (readings_after f w cfg x n))
      ∙ sym (append_assoc (outcome f w cfg x media n) _ _)

  medias_after-append :
      (xs ys : List Output) (media : List ℕ)
      → medias_after f w cfg (xs ++ ys) media
        ≡ medias_after f w cfg ys (medias_after f w cfg xs media)
  medias_after-append [] ys media = refl
  medias_after-append (x ∷ xs) ys media = medias_after-append xs ys (media_after f w cfg x media)

  clocks_after-append :
      (xs ys : List Output) (n : ℕ)
      → clocks_after f w cfg (xs ++ ys) n ≡ clocks_after f w cfg ys (clocks_after f w cfg xs n)
  clocks_after-append [] ys n = refl
  clocks_after-append (x ∷ xs) ys n = clocks_after-append xs ys (readings_after f w cfg x n)

  Performs-append :
      (xs ys : List Output) (d d1 d2 : Driver)
      → Performs f w cfg xs d d1
      → Performs f w cfg ys d1 d2
      → Performs f w cfg (xs ++ ys) d d2
  Performs-append xs ys d d1 d2 h k =
      let first = effects f w cfg xs d.media d.readings in
      let rest =
        effects f w cfg ys (medias_after f w cfg xs d.media) (clocks_after f w cfg xs d.readings) in
      let same : effects f w cfg ys d1.media d1.readings ≡ rest =
        ap₂ (effects f w cfg ys) h.threads h.clock in
      record {
        logged =
            k.logged
            ∙ ap₂ (◌++◌) h.logged same
            ∙ append_assoc d.log first rest
            ∙ ap (λ l. d.log ++ l) (sym (effects-append xs ys d.media d.readings));
        threads =
            k.threads
            ∙ ap (medias_after f w cfg ys) h.threads
            ∙ sym (medias_after-append xs ys d.media);
        clock =
            k.clock
            ∙ ap (clocks_after f w cfg ys) h.clock
            ∙ sym (clocks_after-append xs ys d.readings);
      }

abbrev pub stream_of : List (List ℕ) → List ℕ
stream_of [] = []
stream_of (b ∷ bs) = framed b ++ stream_of bs

-- A round for each frame, and more.
abbrev pub rounds : List (List ℕ) → ℕ → ℕ
rounds [] fuel = fuel
rounds (b ∷ bs) fuel = suc (rounds bs fuel)

-- Frame bodies within the limit, and the messages that their frames decode to.
abbrev pub Decodes : (List ℕ → Option Ciborium) → List (List ℕ) → List Decoded → Type 0
Decodes from_reader [] [] = Unit {0}
Decodes from_reader [] (d ∷ ds) = ⊥
Decodes from_reader (b ∷ bs) [] = ⊥
Decodes from_reader (b ∷ bs) (d ∷ ds) =
    (length b ≤ max_frame_body)
    × (decode_frame from_reader (framed b) ≡ ok d)
    × Decodes from_reader bs ds

module _ (f : FloatOps) (w : World) (cfg : HostCfg) (ready : (n : ℕ) → w.write_ok n ≡ true)
    {R : Type 0} (read_exact : ℕ → R → ReadExact × R) (content : R → List ℕ) (ends : R → Bool)
    (recv : IsRecv read_exact content ends) (from_reader : List ℕ → Option Ciborium) where
  -- After the frames `bs` with the messages `ds`, the driver has performed the session's outputs;
  -- it returned if the session is closed, and reads on with what follows if not.
  pub record Serves (fuel : ℕ) (r : R) (s : HostSession) (d : Driver) (bs : List (List ℕ))
      (ds : List Decoded) (rest : List ℕ) : Type 0 where
    pub d' : Driver
    pub r' : R
    pub performs : Performs f w cfg (run ds s).1 d d'
    pub left : is_closed (run ds s).0.state ≡ false → (content r' ≡ rest) × (ends r' ≡ ends r)
    pub goes : serve f w read_exact from_reader cfg (rounds bs fuel) r s d ≡ (
        if is_closed (run ds s).0.state
        then (ok tt, d')
        else serve f w read_exact from_reader cfg fuel r' (run ds s).0 d')

  true_ne_false : ◌≡◌ {A = Bool} true false → ⊥
  true_ne_false e = cc

  closed_of : (st : State) → is_closed st ≡ true → st ≡ State.closed
  closed_of wait_hello h = cc
  closed_of wait_config_ack h = cc
  closed_of streaming h = cc
  closed_of State.closed h = refl

  -- One round: a frame that decodes, and outputs that the driver carries out.
  serve_round :
      (n : ℕ) (bytes : List ℕ) (x : Decoded) (r r1 : R) (s : HostSession) (d d1 : Driver)
      (over : Bool)
      → read_frame read_exact r ≡ (ok (frame bytes), r1)
      → decode_frame from_reader bytes ≡ ok x
      → drive f w cfg (on_frame x s).1 d ≡ (ok over, d1)
      → over ≡ is_closed (on_frame x s).0.state
      → serve f w read_exact from_reader cfg (suc n) r s d ≡ (
          if over
          then (ok tt, d1)
          else serve f w read_exact from_reader cfg n r1 (on_frame x s).0 d1)
  unfolding serve
  serve_round n bytes x r r1 s d d1 true p q e o = rw (serve, p, q, e) refl
  serve_round n bytes x r r1 s d d1 false p q e o =
      rw (serve, p, q, e, ← o)
        (ap (λ z. serve f w read_exact from_reader cfg n z.1 (on_frame x s).0 d1) p)

  pub serve-Serves :
      (fuel : ℕ) (bs : List (List ℕ)) (ds : List Decoded) (rest : List ℕ) (r : R) (s : HostSession)
      (v : View) (d : Driver)
      → Decodes from_reader bs ds
      → content r ≡ stream_of bs ++ rest
      → Shown s v
      → is_closed s.state ≡ false
      → Serves fuel r s d bs ds rest
  unfolding run
  serve-Serves fuel [] [] rest r s v d h e sh open_ = record {
    d' = d;
    r' = r;
    performs = record { logged = sym (append-nil d.log); threads = refl; clock = refl };
    left = λ _. (e, refl);
    goes = rw open_ refl;
  }
  serve-Serves fuel [] (x ∷ ds) rest r s v d h e sh open_ = absurd h
  serve-Serves fuel (b ∷ bs) [] rest r s v d h e sh open_ = absurd h
  serve-Serves fuel (b ∷ bs) (x ∷ ds) rest r s v d (size, dec, more) e sh open_ =
      let (s', out) = on_frame x s in
      let (keeps, sh') = on_frame-Continues x s v sh in
      let (d1, drove, done) = drive_lem f w cfg ready out v d keeps in
      let (r1, read, c1, e1) =
        read_frame-framed read_exact content ends recv b (stream_of bs ++ rest) r size
          (e ∙ append_assoc (framed b) (stream_of bs) rest) in
      let v' = view v out in
      let alive : v.over ≡ false = Shows-closed s.state s v sh ∙ open_ in
      let ended : any is_close out ≡ is_closed s'.state =
        ap (λ o. o || any is_close out) (sym alive)
        ∙ sym (over-view v out)
        ∙ Shows-closed s'.state s' v' sh' in
      let step =
        serve_round (rounds bs fuel) (framed b) x r r1 s d d1 (any is_close out) read dec drove
          ended in
      elim (Bool-cases (is_closed s'.state)) [
        | inl shut ↦
            let same = run_closed ds s' (closed_of s'.state shut) in
            let stop : any is_close out ≡ true = ended ∙ shut in
            record {
              d' = d1;
              r' = r1;
              performs = Performs-append f w cfg out (run ds s').1 d d1 d1 done (
                  rw same
                    (record { logged = sym (append-nil d1.log); threads = refl; clock = refl }));
              left = λ k.
                  absurd (true_ne_false (sym shut ∙ ap (λ q. is_closed q.0.state) (sym same) ∙ k));
              goes = step ∙ rw (stop, same, shut) refl;
            }
        | inr go ↦
            let ih = serve-Serves fuel bs ds rest r1 s' v' d1 more c1 sh' go in
            record {
              d' = ih.d';
              r' = ih.r';
              performs = Performs-append f w cfg out (run ds s').1 d d1 ih.d' done ih.performs;
              left = λ k. let (c2, e2) = ih.left k in (c2, e2 ∙ e1);
              goes = step ∙ rw (ended ∙ go) ih.goes;
            }
      ]
