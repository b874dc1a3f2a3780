-- ===== src/Conn/Whole.antt =====
-- loomd/src/conn.rs: a whole session, from the control stream's bytes to what the driver does.
use loom_host.Base.{ℕ, suc, ◌≡◌, refl, ap, ap₂, sym, ◌∙◌}
use loom_host.Base.{Bool, true, false, if◌then◌else◌, Bool-cases, inl, inr, Option, some}
use loom_host.Base.{List, [], ◌∷◌, ◌++◌, append-nil, Result, ok}
use loom_host.Cbor.{FloatOps}
use loom_host.Cbor.Ciborium.{Ciborium}
use loom_host.Control.{Decoded, encode_frame}
use loom_host.Control.Codes
use loom_host.Session.{HostSession, is_closed, run, new}
use loom_host.Session.Contract.{begin}
use loom_host.Session.Trace.{new-Shown}
use loom_host.Config.{HostCfg, StreamSpec, primary, extra_stream_configs}
use loom_host.Conn.{
  ReadExact, Fault, Effect, wrote, finish, closed, World, Driver, idle, did, serve, session_loop,
  run_session, join_all, error_body,
}
use loom_host.Conn.Effects.{effects, medias_after}
use loom_host.Conn.Stream.{IsRecv, read_frame-eof}
use loom_host.Conn.Refine.{stream_of, rounds, Decodes, serve-Serves}

-- The session's start.
abbrev pub first : HostCfg → List ℕ → StreamSpec → HostSession
first cfg id spec = new cfg.name id spec.params (extra_stream_configs cfg)

-- ERROR and the close, for a frame that does not decode.
abbrev pub refused : FloatOps → List Effect
refused f =
    wrote (encode_frame f Codes.error (error_body Codes.violation))
    ∷ finish
    ∷ closed Codes.violation (Codes.ascii "bad frame")
    ∷ []

-- The close at the end of the stream.
abbrev pub eof_close : List Effect
eof_close = closed Codes.no_error (Codes.ascii "eof") ∷ []

module _ (f : FloatOps) (w : World) (cfg : HostCfg) {R : Type 0}
    (read_exact : ℕ → R → ReadExact × R) (from_reader : List ℕ → Option Ciborium) where
  -- A run of the driver that returned: what it did is `es`, and the joins of the threads last.
  pub record Ran (fuel : ℕ) (r : R) (id : List ℕ) (es : List Effect) (media : List ℕ) : Type 0 where
    pub d' : Driver
    pub returns : run_session f w read_exact from_reader cfg fuel (some r) id ≡ some (ok tt, d')
    pub logged : d'.log ≡ es ++ join_all media

  -- The session over the messages `ds`, all that it asked for, and `last` if it is still open.
  pub record RanAll (fuel : ℕ) (r : R) (id : List ℕ) (spec : StreamSpec) (ds : List Decoded)
      (last : List Effect) : Type 0 where
    pub ran :
        Ran fuel r id
          (effects f w cfg (run ds (first cfg id spec)).1 [] 0
            ++ (if is_closed (run ds (first cfg id spec)).0.state then [] else last))
          (medias_after f w cfg (run ds (first cfg id spec)).1 [])

module _ (f : FloatOps) (w : World) (cfg : HostCfg) (ready : (n : ℕ) → w.write_ok n ≡ true)
    {R : Type 0} (read_exact : ℕ → R → ReadExact × R) (content : R → List ℕ) (ends : R → Bool)
    (recv : IsRecv read_exact content ends) (from_reader : List ℕ → Option Ciborium) where
  -- What a round does at the end of the stream.
  serve-eof :
      (n : ℕ) (r : R) (s : HostSession) (d : Driver)
      → content r ≡ []
      → ends r ≡ true
      → serve f w read_exact from_reader cfg (suc n) r s d
        ≡ did (closed Codes.no_error (Codes.ascii "eof")) d
  unfolding serve
  serve-eof n r s d e h = rw (serve, read_frame-eof read_exact content ends recv r e h) refl

  fresh_open : (id : List ℕ) (spec : StreamSpec) → is_closed (first cfg id spec).state ≡ false
  unfolding new
  fresh_open id spec = refl

  -- What a session did, from what its loop did.
  run_session_lem :
      (fuel : ℕ) (r : R) (id : List ℕ) (spec : StreamSpec) (res : Result (Unit {0}) Fault)
      (d : Driver)
      → primary cfg ≡ some spec
      → serve f w read_exact from_reader cfg fuel r (first cfg id spec) idle ≡ (res, d)
      → run_session f w read_exact from_reader cfg fuel (some r) id
        ≡ some (res, record d { media = []; log = d.log ++ join_all d.media })
  unfolding run_session session_loop
  run_session_lem fuel r id spec res d p e = rw (run_session, session_loop, p, e) refl

  -- From the frames to the end, where `last` tells what follows them.
  ran_lem :
      (fuel : ℕ) (bs : List (List ℕ)) (ds : List Decoded) (rest : List ℕ) (r : R) (id : List ℕ)
      (spec : StreamSpec) (last : List Effect)
      → primary cfg ≡ some spec
      → Decodes from_reader bs ds
      → content r ≡ stream_of bs ++ rest
      → ((r' : R) (s : HostSession) (d : Driver)
          → content r' ≡ rest
          → ends r' ≡ ends r
          → (d' : Driver) × (serve f w read_exact from_reader cfg fuel r' s d ≡ (ok tt, d'))
            × (d'.log ≡ d.log ++ last)
            × (d'.media ≡ d.media))
      → RanAll f w cfg read_exact from_reader (rounds bs fuel) r id spec ds last
  ran_lem fuel bs ds rest r id spec last p dec e tail =
      let s = first cfg id spec in
      let out = run ds s in
      let sv =
        serve-Serves f w cfg ready read_exact content ends recv from_reader fuel bs ds rest r s
          begin idle dec e (new-Shown cfg.name id spec.params (extra_stream_configs cfg))
          (fresh_open id spec) in
      elim (Bool-cases (is_closed out.0.state)) [
        | inl shut ↦ record {
          ran = record {
            d' = record (sv.d') { media = []; log = sv.d'.log ++ join_all sv.d'.media };
            returns =
                run_session_lem (rounds bs fuel) r id spec (ok tt) sv.d' p (sv.goes ∙ rw shut refl);
            logged =
                rw (shut, append-nil)
                  (ap₂ (λ l m. l ++ join_all m) sv.performs.logged sv.performs.threads);
          };
        }
        | inr go ↦
            let (c, en) = sv.left go in
            let (d2, e2, l2, m2) = tail sv.r' out.0 sv.d' c en in
            record {
              ran = record {
                d' = record d2 { media = []; log = d2.log ++ join_all d2.media };
                returns =
                    run_session_lem (rounds bs fuel) r id spec (ok tt) d2 p (sv.goes ∙ rw go e2);
                logged = rw go (
                    ap₂ (λ l m. l ++ join_all m) (l2 ∙ ap (λ l. l ++ last) sv.performs.logged)
                      (m2 ∙ sv.performs.threads));
              };
            }
      ]

  -- A client that sends whole frames and then ends its stream: the driver returns, and what it did is,
  -- output after output, what the session asks for the messages of the frames. If the session did not close, the driver then
  -- closes with no error. The media threads are joined last.
  pub run_session-RanAll :
      (k : ℕ) (bs : List (List ℕ)) (ds : List Decoded) (r : R) (id : List ℕ) (spec : StreamSpec)
      → primary cfg ≡ some spec
      → Decodes from_reader bs ds
      → content r ≡ stream_of bs
      → ends r ≡ true
      → RanAll f w cfg read_exact from_reader (rounds bs (suc k)) r id spec ds eof_close
  unfolding did
  run_session-RanAll k bs ds r id spec p dec e en =
      let last = closed Codes.no_error (Codes.ascii "eof") in
      ran_lem (suc k) bs ds [] r id spec (last ∷ []) p dec (e ∙ sym (append-nil (stream_of bs)))
        (λ r' s d c k2.
          (record d { log = d.log ++ last ∷ [] }, serve-eof k r' s d c (k2 ∙ en), refl, refl))
