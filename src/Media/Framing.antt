-- ===== src/Media/Framing.antt =====
-- loomd/src/media/mod.rs: what a thread's datagrams say to a receiver.
use loom_host.Base.{ℕ, ◌+◌, ◌-◌, ◌^◌, ◌<◌, ltb, ◌≡◌, refl, sym, subst, arith}
use loom_host.Base.{
  Bool, true, ◌||◌, Bool-cases, Option-cases, inl, inr, Option, none, some, List, [], ◌∷◌, ◌++◌,
  All, ok, length,
}
use loom_host.Session.{MediaParams}
use loom_host.Datagram.{
  header_len, DecodedDatagram, new, fragment, frag_count_of, decode_with_streams,
}
use loom_host.Datagram.RoundTrip.{Accepted}
use loom_host.Datagram.Fragment.{Carries, fragment-Carries}
use loom_host.Media.{
  Tick, MediaThread, Action, Encoded, open_encoder, encode, frame_sent, access_unit, not_yet,
  failed, frame_body, on_encoded, produce, reopen, tick, run, start, last, send_loop, config_of,
}
use loom_host.Media.Injector.{All-send_loop}

module _ (stream_id : ℕ) (extra : List ℕ) where
  -- A datagram that decodes, and whose header names the stream and the frame.
  abbrev pub IsOf : ℕ → Bool → List ℕ → Type 0
  IsOf seq key dg =
      (d : DecodedDatagram) × (decode_with_streams dg extra ≡ ok d)
      × (d.header.stream_id ≡ stream_id)
      × (d.header.frame_seq ≡ seq)
      × (d.header.keyframe ≡ key)

  abbrev pub AreFramed : List Action → Type 0
  AreFramed [] = Unit
  AreFramed (open_encoder c ∷ acts) = AreFramed acts
  AreFramed (encode seq force ∷ acts) = AreFramed acts
  AreFramed (frame_sent seq key sent ∷ acts) = All (IsOf seq key) sent × AreFramed acts

  -- The access unit of a round fits the fragment count of the header.
  abbrev UnitFits : ℕ → Encoded → Type 0
  UnitFits ts (access_unit key data_) = frag_count_of (frame_body ts data_) < 2 ^ 16
  UnitFits ts not_yet = Unit
  UnitFits ts failed = Unit

  abbrev pub Fits : Tick → Type 0
  Fits t = UnitFits t.capture_ts t.encoded

  Carries-All :
      (key : Bool) (seq count i : ℕ) (dgs : List (List ℕ))
      → Carries key stream_id seq count extra i dgs
      → All (IsOf seq key) dgs
  unfolding new
  Carries-All key seq count i [] c = tt
  Carries-All key seq count i (dg ∷ dgs) (c, cs) =
      let d : DecodedDatagram = record {
        header = new key stream_id seq i count;
        payload_len = length dg - header_len;
      } in
      ((d, c, refl, refl, refl), Carries-All key seq count (i + 1) dgs cs)

  module _ (small : stream_id < 2 ^ 16) (accepted : Accepted extra stream_id) where
    sent_frame :
        (key : Bool) (seq takes : ℕ) (body : List ℕ) (m : MediaThread)
        → frag_count_of body < 2 ^ 16
        → seq < 2 ^ 32
        → All (IsOf seq key) (send_loop (fragment stream_id seq key body) takes m.drop_gen).1
    sent_frame key seq takes body m hc hq =
        let dgs = fragment stream_id seq key body in
        All-send_loop (IsOf seq key) dgs takes m.drop_gen (
          Carries-All key seq (frag_count_of body) 0 dgs
            (fragment-Carries stream_id seq key body extra hc small hq accepted))

    -- The thread's stream and the width of its frame number.
    abbrev IsOn : MediaThread → Type 0
    IsOn m = (m.stream_id ≡ stream_id) × (m.frame_seq < 2 ^ 32)

    abbrev KeepsOn : Option MediaThread × List Action → Type 0
    KeepsOn (none, acts) = AreFramed acts
    KeepsOn (some m, acts) = AreFramed acts × IsOn m

    on_encoded-KeepsOn :
        (t : Tick) (m : MediaThread) (e : Encoded)
        → t.encoded ≡ e
        → IsOn m
        → Fits t
        → KeepsOn (on_encoded t m)
    unfolding on_encoded
    on_encoded-KeepsOn t m not_yet e on fits = rw (on_encoded, e) (tt, on)
    on_encoded-KeepsOn t m failed e on fits = rw (on_encoded, e) tt
    on_encoded-KeepsOn t m (access_unit key data_) e on fits =
        let body = frame_body t.capture_ts data_ in
        let fits' : frag_count_of body < 2 ^ 16 = subst (UnitFits t.capture_ts) e fits in
        let sent = sent_frame key m.frame_seq t.takes body m fits' on.1 in
        let sent' =
          subst
            (λ s.
              All (IsOf m.frame_seq key)
                (send_loop (fragment s m.frame_seq key body) t.takes m.drop_gen).1)
            (sym on.0) sent in
        rw (on_encoded, e) ((sent', tt), (on.0, omega arith))

    produce-KeepsOn :
        (force : Bool) (t : Tick) (m : MediaThread) → IsOn m → Fits t → KeepsOn (produce force t m)
    unfolding produce
    produce-KeepsOn force t m on fits =
        let h =
          on_encoded-KeepsOn t (record m { have = t.filled || m.have }) t.encoded refl on fits in
        ground arith

    opens :
        (p : MediaParams) (r : Option MediaThread × List Action)
        → KeepsOn r
        → KeepsOn (r.0, open_encoder (config_of p) ∷ r.1)
    opens p (none, acts) h = h
    opens p (some m, acts) h = h

    tick-KeepsOn : (t : Tick) (m : MediaThread) → IsOn m → Fits t → KeepsOn (tick t m)
    unfolding tick reopen produce on_encoded
    tick-KeepsOn t m on fits = elim (Bool-cases t.closed) [
      | inl over ↦ rw (tick, over) tt
      | inr open_ ↦ elim (Option-cases (last t.resizes)) [
        | inl keep ↦ rw (tick, open_, keep) (produce-KeepsOn (ltb 0 t.idr_requests) t m on fits)
        | inr (p, resize) ↦
            let h = produce-KeepsOn true t (reopen p m) on fits in
            elim (Bool-cases t.reopens) [
              | inl again ↦
                  rw (tick, open_, resize, again) (opens p (produce true t (reopen p m)) h)
              | inr fail ↦ rw (tick, open_, resize, fail) tt
            ]
      ]
    ]

    AreFramed-append : (xs ys : List Action) → AreFramed xs → AreFramed ys → AreFramed (xs ++ ys)
    AreFramed-append [] ys h k = k
    AreFramed-append (open_encoder c ∷ xs) ys h k = AreFramed-append xs ys h k
    AreFramed-append (encode s f ∷ xs) ys h k = AreFramed-append xs ys h k
    AreFramed-append (frame_sent s f d ∷ xs) ys h k = (h.0, AreFramed-append xs ys h.1 k)

    KeepsOn-none : (r : Option MediaThread × List Action) → r.0 ≡ none → KeepsOn r → AreFramed r.1
    KeepsOn-none (none, acts) e h = h
    KeepsOn-none (some m, acts) e h = h.0

    KeepsOn-some :
        (r : Option MediaThread × List Action) (m : MediaThread)
        → r.0 ≡ some m
        → KeepsOn r
        → AreFramed r.1 × IsOn m
    KeepsOn-some (none, acts) m e h = absurd (ground arith)
    KeepsOn-some (some m', acts) m e h = (h.0, ground arith)

    run_framed : (ts : List Tick) (m : MediaThread) → IsOn m → All Fits ts → AreFramed (run ts m)
    unfolding run
    run_framed [] m on fits = tt
    run_framed (t ∷ ts) m on (fit, fits) =
        let h = tick-KeepsOn t m on fit in
        elim (Option-cases (tick t m).0) [
          | inl e ↦ rw (run, e) (KeepsOn-none (tick t m) e h)
          | inr (m', e) ↦
              let (now, on') = KeepsOn-some (tick t m) m' e h in
              rw (run, e)
                (AreFramed-append (tick t m).1 (run ts m') now (run_framed ts m' on' fits))
        ]

-- Whatever the rounds find and whatever is lost on the way, every datagram that a thread sends
-- decodes at a receiver that accepts its stream, and its header names the stream, the number of
-- its frame and the frame's key flag; if each access unit fits the fragment count of the header.
pub run-AreFramed :
    (ts : List Tick) (stream_id : ℕ) (p : MediaParams) (captures : Bool) (percent : ℕ)
    (extra : List ℕ)
    → stream_id < 2 ^ 16
    → Accepted extra stream_id
    → All (Fits stream_id extra) ts
    → AreFramed stream_id extra (run ts (start stream_id p captures percent))
unfolding start
run-AreFramed ts stream_id p captures percent extra small accepted fits =
    run_framed stream_id extra small accepted ts (start stream_id p captures percent)
      (refl, omega arith) fits
