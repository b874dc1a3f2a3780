-- ===== src/Lib.antt =====
-- A model of loom-host, the host side of a remote-display protocol: it captures displays,
-- encodes them and streams them over QUIC to a client. The model covers the code that decides
-- what goes on the wire and when.
--
-- The program's parts, and how they meet:
--   - loom-proto/src/datagram.rs frames video for QUIC datagrams. A frame's body is cut into
--     fragments, each with a 12-byte header; the receiver checks each header.
--     Datagram.antt has the header, `encode`, `fragment` and `decode_with_streams`.
--   - loom-proto/src/reassembly.rs is the receive model: fragments with their arrival times go
--     in, frames for the decoder and IDR requests come out. Reassembly.antt has `Reassembler`
--     and `push`; Reassembly/Log.antt states what a decoder may be shown.
--   - loom-proto/src/cbor.rs is the canonical CBOR encoder and the lowering of decoded values.
--     Cbor.antt, Cbor/Values.antt and Cbor/Ciborium.antt have them; Cbor/Reader.antt is a reader
--     written from RFC 8949, and Cbor/Crate.antt states the law that is asked of the crate's.
--   - loom-proto/src/control.rs, error.rs and errors.rs frame the messages of the control stream.
--     Control.antt has `encode_frame`, `decode_frame` and the registry of keys; Control/Codes.antt
--     has the message types and error codes.
--   - loomd/src/session.rs is the host's session, a state machine without I/O: decoded control
--     frames go in, instructions to the connection driver come out. Session.antt has one function
--     per handler, under the handler's name; Session/Body.antt reads message bodies;
--     Session/Contract.antt states what the driver may rely on.
--   - loomd/src/conn.rs drives one connection: it reads the control stream frame by frame, hands the
--     messages to the session, and carries out what the session asks. Conn.antt has the loop as
--     actions on a log of effects; Conn/Effects.antt says what outputs ask for, Conn/Whole.antt and
--     Conn/Safety.antt what a whole session does, and Conn/Slot.antt is the gate of one session.
--   - loom-capture/src captures the screen. frame.rs, convert.rs and nv12.rs hold a frame in planes and
--     fill it from packed RGB or NV12: Capture.antt and Capture/Nv12.antt. stream.rs is the thread of a
--     PipeWire stream, whose callbacks Capture/Stream.antt has as functions of the state that they
--     share; Capture/Watch.antt says what the events show. sck.rs is the twin for ScreenCaptureKit, in
--     Capture/Screen.antt. Both publish into a slot that the media thread polls. lib.rs has the
--     errors, in Capture/Failure.antt, and `start` and `fill`, with Capture/Stream.antt.
--   - loomd/src/media/testpattern.rs draws frames where nothing is captured: TestPattern.antt.
--   - loomd/src/main.rs resolves `--displays` into the streams to serve. Config.antt has it, with the
--     settings that the driver takes.
--   - loom-proto/src/keymap.rs reads keycode tables from CSV: Keymap.antt.
--   - loom-proto/src/clocksync.rs estimates the offset of the client's and the host's clock.
--     ClockSync.antt has the filter; ClockSync/Window.antt and ClockSync/Exact.antt say what its
--     window and its samples are.
--   - loom-encode/src/annexb.rs turns an encoder's length-prefixed units into Annex-B.
--     AnnexB.antt has `append`; AnnexB/Units.antt says what an access unit is.
--   - loom-encode/src/videotoolbox.rs drives the hardware encoder of macOS. Encode.antt has what becomes
--     of an encoded frame, from the callback to the access unit with its parameter sets.
--   - loomd/src/media/mod.rs and media/constraints.rs are the media threads, one for each stream.
--     Media.antt has the loop of `run` as a function of what each round finds: the connection, the
--     channels, the capture, the encoder and the number of datagrams that the connection takes.
--   - Transport.antt joins datagram.rs and reassembly.rs: a frame from the cut to the decoder.
--   - Base.antt and its children hold what the parts share: lists, integers, bytes, ordered maps.
--
-- State is a record, a handler is a function from a state to the next state and the outputs in
-- order. A byte string is a list of numbers; `u16`, `u32` and `u64` values are natural numbers,
-- with each cast written as a remainder; `i64` and `i128` values are integers, with each cast to
-- `i64` written out. Arithmetic on `i64` wraps, as in a release build. A `HashSet` is a list
-- without repetition, a `BTreeMap` is a list in key order. A panic is `none`.
--
-- The loops of the source are recursion on a list or on a number of rounds that the source
-- computes first, but for the loop of `append` in AnnexB.antt, which runs on fuel: a round for each
-- byte of the source, and each round takes one byte at least. The reader of Cbor/Reader.antt, which
-- is no part of the program, runs on fuel for twice the length of what it reads. The loop of a
-- connection runs on fuel too: a round for each frame, and each takes 4 bytes of the stream at least.
--
-- Parameters: the reader of the ciborium crate (`decode`, `decode_frame`), and the float
-- conversions of Rust and of the half crate (`FloatOps`); an `f64` is its 64-bit pattern. The
-- laws that a theorem asks of them are `IsReader`, which is about text in UTF-8 and the reader's
-- recursion limit of 256 (Cbor/Text.antt), and `FloatLaws`. The transport of a connection is
-- a parameter as well: `read_exact` with the law `IsRecv`, whether each write succeeds, and the clock.
-- The join of a media thread is logged as a call; that it waits for the thread is not modelled.
--
-- What PipeWire's parsers tell of a format is a parameter too (`Parsers`), and what the platforms
-- deliver to a capture is input: events, buffers, samples and replies.
--
-- Not modelled: the QUIC endpoint and TLS (loomd/src/endpoint.rs, tls.rs), the pacing of media
-- threads (media/), the portal handshake and the platform objects of a capture (loom-capture/), the
-- settings of the encoders and the other bindings (the rest of loom-encode/), the parsing of the
-- command line, and the strings of `DropReason`, which only the conformance vectors use.
pub mod Base
pub mod Config
pub mod Conn
pub mod Datagram
pub mod Reassembly
pub mod Cbor
pub mod Control
pub mod Encode
pub mod Session
pub mod AnnexB
pub mod Capture
pub mod ClockSync
pub mod Keymap
pub mod Media
pub mod TestPattern
pub mod Transport
