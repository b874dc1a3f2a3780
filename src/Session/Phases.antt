-- ===== src/Session/Phases.antt =====
-- loomd/src/session.rs: which replies a frame can draw, and how they move the session.
use loom_host.Base.{ℕ, Bool}
use loom_host.Base.{◌≡◌, ◌≢◌, refl, arith}
use loom_host.Base.{List, [], ◌∷◌}
use loom_host.Base.Int.{ℤ, pos}
use loom_host.Cbor.Values.{Entries, end, entry, int, text}
use loom_host.Control.{Decoded, message, ignored}
use loom_host.Control.Codes
use loom_host.Session.{
  State, wait_hello, wait_config_ack, streaming, closed, Output, send, start_media, request_idr,
  reconfigure, clock_pong, stats, close, HostSession, MediaParams, StatsReport, on_frame,
  on_message, dispatch, on_hello, accept_hello, on_config_ack, on_streaming, on_viewport, resize,
  greeted, resized, on_reconfig_ack, fatal, protocol_violation,
}

-- ERROR with a code and a text, and the close with that code.
abbrev pub failure : ℕ → List ℕ → List Output
failure code detail =
    send Codes.error (entry (int (pos 0)) (int (pos code)) (entry (int (pos 1)) (text detail) end))
    ∷ close code
    ∷ []

-- What a session in a phase may answer, and the phase that it is in afterwards.
pub data Reply : State → State → List Output → Type 0 where
  quiet : {p : State} → Reply p p []
  pong : {p : State} (t : ℤ) → p ≢ closed → Reply p p (clock_pong t ∷ [])
  goodbye : {p : State} → p ≢ closed → Reply p closed (close Codes.no_error ∷ [])
  fail :
      {p : State} (code : ℕ) (detail : List ℕ) → p ≢ closed → Reply p closed (failure code detail)
  greet :
      (w c : Entries)
      → Reply wait_hello wait_config_ack (send Codes.welcome w ∷ send Codes.config c ∷ [])
  begin : (m : Bool) → Reply wait_config_ack streaming (send Codes.start end ∷ start_media m ∷ [])
  refresh : (id : ℕ) → Reply streaming streaming (request_idr id ∷ [])
  report : (r : StatsReport) → Reply streaming streaming (stats r ∷ [])
  offer : (c : Entries) → Reply streaming streaming (send Codes.config c ∷ [])
  switch : (p : MediaParams) → Reply streaming streaming (reconfigure p ∷ [])

abbrev pub Replies : HostSession → HostSession × List Output → Type 0
Replies s r = Reply s.state r.0.state r.1

on_hello-Reply :
    (t : ℕ) (body : Entries) (s : HostSession)
    → s.state ≡ wait_hello
    → Replies s (on_hello t body s)
unfolding on_hello accept_hello greeted fatal protocol_violation
on_hello-Reply t body s e = grind (arith, fail, greet)

on_config_ack-Reply :
    (t : ℕ) (body : Entries) (s : HostSession)
    → s.state ≡ wait_config_ack
    → Replies s (on_config_ack t body s)
unfolding on_config_ack fatal protocol_violation
on_config_ack-Reply t body s e = grind (arith, fail, begin)

on_viewport-Reply :
    (body : Entries) (s : HostSession) → s.state ≡ streaming → Replies s (on_viewport body s)
unfolding on_viewport resize resized
on_viewport-Reply body s e = grind (arith, quiet, offer)

on_reconfig_ack-Reply :
    (body : Entries) (s : HostSession) → s.state ≡ streaming → Replies s (on_reconfig_ack body s)
unfolding on_reconfig_ack fatal protocol_violation
on_reconfig_ack-Reply body s e = grind (arith, fail, switch)

on_streaming-Reply :
    (t : ℕ) (body : Entries) (s : HostSession)
    → s.state ≡ streaming
    → Replies s (on_streaming t body s)
unfolding on_streaming fatal protocol_violation
on_streaming-Reply t body s e = grind (
  arith,
  on_viewport-Reply body s e,
  on_reconfig_ack-Reply body s e,
  quiet,
  fail,
  refresh,
  report,
)

dispatch-Reply :
    (p : State) (t : ℕ) (body : Entries) (s : HostSession)
    → s.state ≡ p
    → Replies s (dispatch p t body s)
unfolding dispatch
dispatch-Reply wait_hello t body s e = on_hello-Reply t body s e
dispatch-Reply wait_config_ack t body s e = on_config_ack-Reply t body s e
dispatch-Reply streaming t body s e = on_streaming-Reply t body s e
dispatch-Reply closed t body s e = quiet

-- Every frame, in every phase, draws one of the replies of the protocol, and moves the session as
-- that reply does: a greeting only to a session that waits for HELLO, the start of media only from
-- the wait for CONFIG_ACK, an IDR, a report, a new CONFIG or a resize only while streaming, and
-- a closed session only by a clean goodbye or by ERROR and a close that carry one code.
pub on_frame-Reply : (d : Decoded) (s : HostSession) → Replies s (on_frame d s)
unfolding on_frame on_message
on_frame-Reply (message t body) s =
    grind (arith, dispatch-Reply s.state t body s refl, quiet, goodbye, pong)
on_frame-Reply ignored s = quiet
