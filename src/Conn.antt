-- ===== src/Conn.antt =====
-- loomd/src/conn.rs: the driver of one connection, which feeds the control stream's frames to the
-- session and carries out what the session asks.
-- What the transport does is input: the stream that is read, whether each write succeeds, and the
-- clock. What the driver does is a log. A method keeps what it did before a failure.
mod Actions
mod Tests
pub mod Effects
pub mod Stream
pub mod Refine
pub mod Whole
pub mod Rounds
pub mod Order
pub mod Safety
pub mod Slot
use loom_host.Base.{ℕ, zero, suc, ◌+◌, ◌%◌, ◌^◌, ltb, ◌==◌, if◌then◌else◌}
use loom_host.Base.{Bool, true, false, Option, none, some, List, [], ◌∷◌, ◌++◌, get_or, take, any}
use loom_host.Base.{Result, ok, err}
use loom_host.Base.Int.{ℤ, pos}
use loom_host.Base.Bytes.{from_be32}
use loom_host.Cbor.{FloatOps}
use loom_host.Cbor.Values.{Entries, int, text, end, entry}
use loom_host.Cbor.Ciborium.{Ciborium}
use loom_host.Control.{max_frame_body, encode_frame, decode_frame}
use loom_host.Control.Codes
use loom_host.Session.{
  MediaParams, StatsReport, Output, send, start_media, request_idr, reconfigure, clock_pong, stats,
  close, HostSession, is_closed, new, on_frame,
}
use loom_host.Config.{StreamSpec, HostCfg, primary, extra_stream_configs}
use Actions.{Io, pure, raise, ◌>>=◌, ◌>>◌}

-- What `RecvStream::read_exact` gives: the bytes, the end of the stream after fewer, or an error.
pub data ReadExact : Type 0 where
  got : List ℕ → ReadExact
  finished_early : ℕ → ReadExact
  lost : ReadExact

-- The errors that end a session; `no_fuel` is a loop of the model that ran out of rounds.
pub data Fault : Type 0 where
  accept_bi read_len over_limit read_body write no_fuel : Fault

-- What the driver does; `join_called` is the call, not the end of the thread.
pub data Effect : Type 0 where
  wrote : List ℕ → Effect
  finish : Effect
  closed : ℕ → List ℕ → Effect
  spawned : StreamSpec → Effect
  idr_to : ℕ → Effect
  resized : ℕ → MediaParams → Effect
  reported : StatsReport → Effect
  join_called : ℕ → Effect

-- Whether the nth write of a connection succeeds, and the nth reading of the clock.
pub record World : Type 0 where
  pub write_ok : ℕ → Bool
  pub now : ℕ → ℕ

-- The streams of the media threads that run, how often the driver wrote and read the clock, and
-- what it did.
pub record Driver : Type 0 where
  pub media : List ℕ
  pub writes : ℕ
  pub readings : ℕ
  pub log : List Effect

abbrev pub Drive : Type 0 → Type 0
Drive A = Io Driver Fault A

abbrev pub idle : Driver
idle = record { media = []; writes = 0; readings = 0; log = [] }

pub did : Effect → Drive Unit
did e d = (ok tt, record d { log = d.log ++ e ∷ [] })

-- What the pieces of a driver give to `media::spawn`.
pub spawn : List StreamSpec → Drive Unit
spawn [] d = (ok tt, d)
spawn (s ∷ ss) d =
    spawn ss (record d { media = d.media ++ s.stream_id ∷ []; log = d.log ++ spawned s ∷ [] })

-- `media.iter().find(|m| m.stream_id() == id)`
abbrev pub runs : ℕ → List ℕ → Bool
runs id media = any (λ m. m == id) media

-- `if let Some(m) = …` on the media threads.
pub tell : ℕ → Effect → Drive Unit
tell id e d = if runs id d.media then did e d else (ok tt, d)

pub join_all : List ℕ → List Effect
join_all [] = []
join_all (m ∷ ms) = join_called m ∷ join_all ms

pub read_clock : World → Drive ℕ
read_clock w d = (ok (w.now d.readings), record d { readings = d.readings + 1 })

abbrev pub pong_body : ℕ → ℤ → Entries
pong_body now t0 =
    entry (int (pos 0)) (int t0)
      (entry (int (pos 1)) (int (pos now)) (entry (int (pos 2)) (int (pos now)) end))

pub error_body : ℕ → Entries
error_body code =
    entry (int (pos 0)) (int (pos code)) (entry (int (pos 1)) (text (Codes.name code)) end)

-- `&cfg.streams[..]` or `&cfg.streams[..1]`
abbrev pub served : HostCfg → Bool → List StreamSpec
served cfg multi = if multi then cfg.streams else take 1 cfg.streams

pub data FrameRead : Type 0 where
  frame : List ℕ → FrameRead
  eof : FrameRead

abbrev pub prefix_len : List ℕ → ℕ
prefix_len b = from_be32 (get_or b 0 0) (get_or b 1 0) (get_or b 2 0) (get_or b 3 0)

module _ {R : Type 0} (read_exact : ℕ → R → ReadExact × R) where
  -- The body of a frame, after its length.
  abbrev pub read_body_of : List ℕ → R → Result FrameRead Fault × R
  read_body_of len_buf recv =
      let (r, recv') = read_exact (prefix_len len_buf) recv in
      elim r [
        | got body ↦ (ok (frame (len_buf ++ body)), recv')
        | finished_early k ↦ (err read_body, recv')
        | lost ↦ (err read_body, recv')
      ]

  pub read_frame : R → Result FrameRead Fault × R
  read_frame recv =
      let (r, recv') = read_exact 4 recv in
      elim r [
        | got len_buf ↦
            if ltb max_frame_body (prefix_len len_buf)
            then (err over_limit, recv')
            else read_body_of len_buf recv'
        | finished_early k ↦ ((if k == 0 then ok eof else err read_len), recv')
        | lost ↦ (err read_len, recv')
      ]

module _ (f : FloatOps) (w : World) where
  -- A write that fails is not logged: what of it got through is not known.
  pub send_frame : ℕ → Entries → Drive Unit
  send_frame msg_type body d =
      let d' = record d { writes = d.writes + 1 } in
      if w.write_ok d.writes then did (wrote (encode_frame f msg_type body)) d' else (err write, d')

  -- One output; `true` when the connection is done.
  pub act : HostCfg → Output → Drive Bool
  act cfg (send msg_type body) = do send_frame msg_type body; pure false
  act cfg (start_media multi) = do spawn (served cfg multi); pure false
  act cfg (request_idr id) = do tell id (idr_to id); pure false
  act cfg (reconfigure params) = do tell 0 (resized 0 params); pure false
  act cfg (clock_pong t0) = do
    now ← read_clock w
    send_frame Codes.clock_pong (pong_body now t0)
    pure false
  act cfg (stats r) = do did (reported r); pure false
  act cfg (close code) = do did finish; did (closed (code % 2 ^ 32) (Codes.name code)); pure true

  pub drive : HostCfg → List Output → Drive Bool
  drive cfg [] = pure false
  drive cfg (o ∷ os) = do over ← act cfg o; if over then pure true else drive cfg os

  -- Malformed framing or CBOR, which the session never sees.
  pub refuse : Drive Unit
  refuse = do
    send_frame Codes.error (error_body Codes.violation)
    did finish
    did (closed Codes.violation (Codes.ascii "bad frame"))

  module _ {R : Type 0} (read_exact : ℕ → R → ReadExact × R)
      (from_reader : List ℕ → Option Ciborium) (cfg : HostCfg) where
    -- The rounds of `session_loop`.
    pub serve : ℕ → R → HostSession → Drive Unit
    serve zero recv s = raise no_fuel
    serve (suc fuel) recv s =
        let (r, recv') = read_frame read_exact recv in
        elim r [
          | err e ↦ raise e
          | ok eof ↦ did (closed Codes.no_error (Codes.ascii "eof"))
          | ok (frame bytes) ↦ elim (decode_frame from_reader bytes) [
            | err e ↦ refuse
            | ok decoded ↦
                let (s', outputs) = on_frame decoded s in
                let rest = serve fuel recv' s' in
                do
                  over ← drive cfg outputs
                  if over then pure tt else if is_closed s'.state then pure tt else rest
          ]
        ]

    -- `opened` is the stream that `accept_bi` gives, if it gives one; `id` is `gen_session_id()`.
    -- Without a stream to serve, `cfg.primary()` panics.
    pub session_loop : ℕ → Option R → List ℕ → Option (Drive Unit)
    session_loop fuel opened id = elim (primary cfg) [
      | none ↦ elim opened [ none ↦ some (raise accept_bi) | some recv ↦ none ]
      | some spec ↦ elim opened [
        | none ↦ some (raise accept_bi)
        | some recv ↦
            some (serve fuel recv (new cfg.name id spec.params (extra_stream_configs cfg)))
      ]
    ]

    -- Whatever ended the loop, the driver then calls `join` on each media thread, which waits until the
    -- thread has seen the connection closed. The log has the call; how long it takes is not modelled.
    pub run_session : ℕ → Option R → List ℕ → Option (Result (Unit {0}) Fault × Driver)
    run_session fuel opened id = elim (session_loop fuel opened id) [
      | none ↦ none
      | some m ↦
          let (r, d) = m idle in some (r, record d { media = []; log = d.log ++ join_all d.media })
    ]
