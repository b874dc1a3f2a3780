-- ===== src/Conn/Tests.antt =====
-- loomd/src/conn.rs: runs of the driver over concrete streams, and the theorems at concrete inputs.
use loom_host.Base.{ℕ, ◌+◌, ◌%◌, ◌^◌, ◌≤◌, ltb, ◌≡◌, ◌≢◌, refl, ap, ◌∙◌, subst, arith}
use loom_host.Base.{Bool, true, false, ◌==◌, if◌then◌else◌, Option, some, none}
use loom_host.Base.{List, [], ◌∷◌, ◌++◌, length, take, drop, append-nil, Result, ok, err}
use loom_host.Base.Int.{pos, as_u64}
use loom_host.Base.Bytes.{be32}
use loom_host.Cbor.{
  encode_head, encode_int, encode_into, encode_items, encode_pairs, lex_le, sort_pairs, insert_pair,
  flatten_pairs, to_canonical,
}
use loom_host.Cbor.Values.{Entries, int, array, nil, cons, end, entry}
use loom_host.Cbor.Ciborium.{Ciborium}
use loom_host.Cbor.Reads.{IsCanonical}
use loom_host.Cbor.Text.{IsNested, IsReadable}
use loom_host.Cbor.Crate.{plain_floats, plain_floats-FloatLaws, model_reader, model_reader-IsReader}
use loom_host.Control.{Decoded, max_frame_body, encode_frame, decode_frame}
use loom_host.Control.Codes
use loom_host.Control.Frames.{envelope, told, decode_frame-encode_frame}
use loom_host.Session.{default_params}
use loom_host.Config.{StreamSpec, HostCfg, synthetic, x265, primary}
use loom_host.Conn.{
  ReadExact, got, finished_early, lost, World, Driver, Fault, no_fuel, closed, wrote, finish,
  run_session, session_loop, serve, read_frame, did, join_all, error_body,
}
use loom_host.Conn.Whole.{RanAll, eof_close, run_session-RanAll}
use loom_host.Conn.Rounds.{run_session-ends}
use loom_host.Conn.Order.{trail, is_ok, IsOrderly, start}
use loom_host.Conn.Safety.{run_session-IsOrderly}
use loom_host.Conn.Slot.{
  Gate, Step, Reach, arrive, try_acquire, opened_gate, admitted, rejected, arrive-admits,
  reject_busy, told_busy,
}
use loom_host.Conn.Stream.{IsRecv, framed}
use loom_host.Conn.Refine.{stream_of, rounds, Decodes}

-- A stream: the bytes still to come, and whether it then ends well.
abbrev Pipe : Type 0
Pipe = List ℕ × Bool

read_pipe : ℕ → Pipe → ReadExact × Pipe
read_pipe n (bytes, well) =
    if ltb (length bytes) n
    then ((if well then finished_early (length bytes) else lost), ([], well))
    else (got (take n bytes), (drop n bytes, well))

abbrev pipe_content : Pipe → List ℕ
pipe_content p = p.0

abbrev pipe_ends : Pipe → Bool
pipe_ends p = p.1

read_pipe-IsRecv : IsRecv read_pipe pipe_content pipe_ends
unfolding read_pipe
read_pipe-IsRecv = record {
  reads = λ n r h. ground arith;
  short = λ n r h w. ground arith;
  breaks = λ n r h w. ground arith;
}

abbrev fine : World
fine = record { write_ok = λ n. true; now = λ n. 1000 + n }

abbrev spec : StreamSpec
spec = record {
  stream_id = 0;
  params = default_params;
  source = synthetic;
  display = none;
  x = pos 0;
  y = pos 0;
}

abbrev cfg : HostCfg
cfg = record { name = Codes.ascii "host"; streams = spec ∷ []; encoder = x265; drop_percent = 0 }

abbrev reader : List ℕ → Option Ciborium
reader = model_reader plain_floats

-- A message as the body of its frame decodes to the message.
body_of : ℕ → Entries → List ℕ
body_of t body = to_canonical plain_floats (envelope t body)

decode_body :
    (t : ℕ) (body : Entries)
    → IsCanonical plain_floats (envelope t body)
    → IsReadable (envelope t body)
    → length (body_of t body) ≤ max_frame_body
    → decode_frame reader (framed (body_of t body)) ≡ ok (told t body)
unfolding body_of encode_frame
decode_body t body c readable h =
    let cbor = to_canonical plain_floats (envelope t body) in
    let n : length cbor % 2 ^ 32 ≡ length cbor = omega arith in
    let whole : encode_frame plain_floats t body ++ [] ≡ framed cbor =
      append-nil _ ∙ ap (λ k. be32 k ++ cbor) n in
    subst (λ l. decode_frame reader l ≡ ok (told t body)) whole
      (decode_frame-encode_frame reader plain_floats
        (model_reader-IsReader plain_floats plain_floats-FloatLaws) t body [] c readable h)

abbrev hello : Entries
hello = entry (int (pos 0)) (int (pos 1)) (entry (int (pos 2)) (array (cons (int (pos 1)) nil)) end)

hello-IsCanonical : IsCanonical plain_floats (envelope Codes.hello hello)
unfolding IsCanonical encode_pairs encode_into encode_int encode_head as_u64 lex_le
hello-IsCanonical = ground arith

hello-IsReadable : IsReadable (envelope Codes.hello hello)
unfolding IsNested
hello-IsReadable = ground arith

hello_short : length (body_of Codes.hello hello) ≤ max_frame_body
unfolding body_of to_canonical encode_into encode_items encode_pairs encode_int encode_head as_u64
    lex_le sort_pairs insert_pair flatten_pairs
hello_short = omega arith

abbrev bodies : List (List ℕ)
bodies = body_of Codes.hello hello ∷ []

abbrev messages : List Decoded
messages = told Codes.hello hello ∷ []

bodies-Decodes : Decodes reader bodies messages
bodies-Decodes =
    (hello_short, decode_body Codes.hello hello hello-IsCanonical hello-IsReadable hello_short, tt)

primary-cfg : primary cfg ≡ some spec
unfolding primary
primary-cfg = refl

always : (n : ℕ) → World.write_ok fine n ≡ true
always n = refl

abbrev pipe : List ℕ → Pipe
pipe bytes = (bytes, true)

-- HELLO, and the end of the stream.
run_session-RanAll_example :
    RanAll plain_floats fine cfg read_pipe reader
      (rounds bodies 4)
      (pipe (stream_of bodies))
      []
      spec
      messages
      eof_close
run_session-RanAll_example =
    run_session-RanAll plain_floats fine cfg always read_pipe pipe_content pipe_ends
      read_pipe-IsRecv reader 3 bodies messages (pipe (stream_of bodies)) [] spec primary-cfg
      bodies-Decodes refl refl

-- HELLO, a frame with no body, and a byte more.
abbrev junk : List ℕ
junk = []

-- Six bytes, of which the first four announce too long a frame, and a lost connection.
run_session-ends_example :
    (res : Result (Unit {0}) Fault) × (d : Driver) × (run_session plain_floats fine read_pipe reader
        cfg 7
        (some (255 ∷ 0 ∷ 0 ∷ 0 ∷ 1 ∷ 2 ∷ [], false))
        []
      ≡ some (res, d))
    × (res ≢ err no_fuel)
    × ((trail start d.log).over ≡ is_ok res)
run_session-ends_example =
    run_session-ends plain_floats fine read_pipe pipe_content pipe_ends read_pipe-IsRecv reader cfg
      7 (255 ∷ 0 ∷ 0 ∷ 0 ∷ 1 ∷ 2 ∷ [], false) [] spec primary-cfg (omega arith)

-- An end of the stream before the first frame: what the driver did.
abbrev after_eof : Driver
after_eof = record { media = []; writes = 0; readings = 0; log = closed 0 (Codes.ascii "eof") ∷ [] }

eof_run :
    run_session plain_floats fine read_pipe reader cfg 7 (some ([], true)) []
    ≡ some (ok tt, after_eof)
unfolding run_session session_loop serve read_frame read_pipe primary did join_all
eof_run = refl

run_session-IsOrderly_example : IsOrderly cfg start after_eof.log
run_session-IsOrderly_example =
    run_session-IsOrderly cfg plain_floats fine read_pipe reader 7 (some ([], true)) [] (ok tt)
      after_eof eof_run

-- While a session runs, a connection is told BUSY.
abbrev taken : Gate
taken = (arrive plain_floats fine true true opened_gate).0

taken_gate : taken ≡ record { permits = 0; live = 1 }
unfolding arrive try_acquire
taken_gate = refl

arrive-admits_example :
    (taken.live ≤ 1)
    × ((arrive plain_floats fine true true taken).1
        ≡ (if taken.live == 0 then admitted else rejected (told_busy plain_floats fine true)))
arrive-admits_example =
    arrive-admits plain_floats fine taken true
      (Reach.then_ Reach.here (Step.arrives true true opened_gate))

busy_log :
    (reject_busy plain_floats fine true).log
    ≡ wrote (encode_frame plain_floats Codes.error (error_body Codes.busy))
      ∷ finish
      ∷ closed Codes.busy (Codes.ascii "busy")
      ∷ []
unfolding reject_busy
busy_log = refl
