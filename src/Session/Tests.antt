-- ===== src/Session/Tests.antt =====
-- loomd/src/session.rs: the crate's own test cases, and the theorems at concrete inputs.
use loom_host.Base.{ℕ, ◌≡◌, ◌≢◌, ◌↔◌, refl, false, arith}
use loom_host.Base.{List, [], ◌∷◌, none, some}
use loom_host.Base.Int.{pos, as_u64}
use loom_host.Cbor.Values.{Entries, int, text, array, nil, cons, end, entry, count_entries}
use loom_host.Control.{Decoded, message, ignored}
use loom_host.Control.Codes
use loom_host.Session.Body.{int_key, pair_elem, offers_codec, pair_of}
use loom_host.Base.{ok, length, ◌≤◌, ◌<◌}
use loom_host.Cbor.{
  encode_head, encode_int, encode_into, encode_items, encode_pairs, lex_le, sort_pairs, insert_pair,
  flatten_pairs, to_canonical,
}
use loom_host.Cbor.Crate.{plain_floats, plain_floats-FloatLaws, model_reader, model_reader-IsReader}
use loom_host.Control.{max_frame_body, encode_frame, decode_frame}
use loom_host.Control.Frames.{envelope}
use loom_host.Session.Wire.{IsSession, decode_frame-config_body}
use loom_host.Session.{
  HostSession, send, start_media, State, wait_hello, wait_config_ack, streaming, closed,
  default_params, new, on_frame, on_message, dispatch, on_hello, accept_hello, greeted,
  on_config_ack, fatal, protocol_violation, welcome_body, config_body, clamp_viewport, run,
  codec_hevc, min_dim, host_max_width, host_max_height,
}
use loom_host.Session.Phases.{Replies, on_frame-Reply}
use loom_host.Session.Contract.{KeepsContract, begin}
use loom_host.Session.Trace.{run-KeepsContract, run_closed}
use loom_host.Session.Viewport.{InRange, clamp_viewport_lem}
use loom_host.Session.Handshake.{
  Accepts, multi, run-handshake, bodies_multi, hello_refusals, close_code,
}

abbrev fresh : HostSession
fresh = record {
  state = wait_hello;
  host_name = Codes.ascii "test-host";
  session_id = [];
  params = default_params;
  generation = 0;
  client_max_width = 2560;
  client_max_height = 1440;
  pending_generation = none;
  extra_streams = [];
  multi_active = false;
}

-- `hello(version, codecs)` with one codec.
abbrev hello_of : ℕ → ℕ → Entries
hello_of version codec = entry (int (pos 0)) (int (pos version)) (
    entry (int (pos 1)) (text (Codes.ascii "test-client"))
      (entry (int (pos 2)) (array (cons (int (pos codec)) nil)) end))

abbrev ack_of : ℕ → Entries
ack_of g = entry (int (pos 0)) (int (pos g)) end

abbrev viewport_of : ℕ → ℕ → Entries
viewport_of w h = entry (int (pos 0)) (pair_of (pos w) (pos h)) end

abbrev states : List Decoded → State
states ds = (run ds fresh).0.state

-- `config_ack_before_hello_is_violation`, `second_hello_is_violation`,
-- `bye_closes_cleanly_from_any_state`, `unknown_type_is_ignored`.
phases_visited :
    (states (message Codes.config_ack (ack_of 1) ∷ []) ≡ closed)
    × (states (message Codes.hello (hello_of 1 1) ∷ message Codes.hello (hello_of 1 1) ∷ [])
        ≡ closed)
    × (states (message Codes.hello (hello_of 1 1) ∷ message Codes.bye (ack_of 0) ∷ []) ≡ closed)
    × (states (ignored ∷ []) ≡ wait_hello)
    × (states (message Codes.hello (hello_of 1 1) ∷ []) ≡ wait_config_ack)
unfolding run on_frame on_message dispatch on_hello accept_hello greeted on_config_ack fatal
    protocol_violation int_key offers_codec pair_elem
phases_visited = (refl, refl, refl, refl, refl)

-- `wrong_version_hello_gets_version_unsupported`, `hello_without_hevc_gets_no_common_codec`.
hello_codes :
    (close_code (on_frame (message Codes.hello (hello_of 2 1)) fresh).1 ≡ some 1)
    × (close_code (on_frame (message Codes.hello (hello_of 1 2)) fresh).1 ≡ some 3)
unfolding on_frame on_message dispatch on_hello accept_hello greeted fatal int_key offers_codec
    pair_elem
hello_codes = (refl, refl)

on_frame-Reply_example : Replies fresh (on_frame (message Codes.hello (hello_of 2 1)) fresh)
on_frame-Reply_example = on_frame-Reply (message Codes.hello (hello_of 2 1)) fresh

abbrev dialogue : List Decoded
dialogue =
    message Codes.hello (hello_of 1 1)
    ∷ message Codes.config_ack (ack_of 1)
    ∷ message Codes.viewport (viewport_of 1920 1080)
    ∷ message Codes.config_ack (ack_of 2)
    ∷ message Codes.idr_request (ack_of 0)
    ∷ message Codes.bye end
    ∷ message Codes.hello (hello_of 1 1)
    ∷ []

run-KeepsContract_example : KeepsContract begin (run dialogue (new [] [] default_params [])).1
run-KeepsContract_example = run-KeepsContract [] [] default_params [] dialogue

run_closed_case :
    run dialogue (record fresh { state = closed }) ≡ (record fresh { state = closed }, [])
run_closed_case = run_closed dialogue (record fresh { state = closed }) refl

-- `viewport_is_clamped_to_client_hello_max`, with a client that decodes less than 640 by 640.
abbrev small : HostSession
small = record fresh { client_max_width = 320; client_max_height = 240 }

clamp_viewport_lem_example :
    (InRange host_max_width 320 (clamp_viewport small 7680 4320).0
      × InRange host_max_height 240 (clamp_viewport small 7680 4320).1)
    × (InRange host_max_width 320 7680
        → InRange host_max_height 240 4320
        → clamp_viewport small 7680 4320 ≡ (7680, 4320))
    × (320 < min_dim → 240 < min_dim → clamp_viewport small 7680 4320 ≡ (min_dim, min_dim))
clamp_viewport_lem_example = clamp_viewport_lem small 7680 4320

-- A session that streams at the default size.
abbrev streams : HostSession
streams = record fresh { state = streaming; generation = 1 }

run-handshake_example :
    let s = greeted (hello_of 1 1) (new [] [] default_params []) in
    let r =
      run
        (message Codes.hello (hello_of 1 1) ∷ message Codes.config_ack (ack_of 1) ∷ [])
        (new [] [] default_params []) in
    (r.1
      ≡ send Codes.welcome (welcome_body s)
        ∷ send Codes.config (config_body s)
        ∷ send Codes.start end
        ∷ start_media (multi (hello_of 1 1) [])
        ∷ [])
    × (r.0.state ≡ streaming)
    × (r.0.params ≡ default_params)
unfolding int_key offers_codec
run-handshake_example =
    run-handshake [] [] default_params [] (hello_of 1 1) (ack_of 1) (refl, refl) refl

bodies_multi_case :
    (int_key (welcome_body fresh) (pos 3) ≡ none)
    × (count_entries (welcome_body fresh) ≡ 3)
    × (count_entries (config_body fresh) ≡ 6)
bodies_multi_case = bodies_multi fresh

hello_refusals_example :
    let code = close_code (on_frame (message Codes.hello (hello_of 2 1)) fresh).1 in
    ((code ≡ some Codes.version_unsupported) ↔ (int_key (hello_of 2 1) (pos 0) ≢ some (pos 1)))
    × ((code ≡ some Codes.no_common_codec) ↔ (
        (int_key (hello_of 2 1) (pos 0) ≡ some (pos 1))
        × (offers_codec (hello_of 2 1) codec_hevc ≡ false)))
    × ((code ≡ none) ↔ Accepts (hello_of 2 1))
hello_refusals_example = hello_refusals (hello_of 2 1) fresh refl

abbrev told_session : HostSession
told_session = record fresh { generation = 1 }

told_session-IsSession : IsSession told_session
unfolding new
told_session-IsSession = ground arith

told_session_short :
    length (to_canonical plain_floats (envelope Codes.config (config_body told_session)))
    ≤ max_frame_body
unfolding new config_body to_canonical encode_into encode_items encode_pairs encode_int encode_head
    as_u64 lex_le sort_pairs insert_pair flatten_pairs
told_session_short = omega arith

decode_frame-config_body_example :
    decode_frame
      (model_reader plain_floats)
      (encode_frame plain_floats Codes.config (config_body told_session))
    ≡ ok (message Codes.config (config_body told_session))
decode_frame-config_body_example =
    decode_frame-config_body plain_floats (model_reader plain_floats)
      (model_reader-IsReader plain_floats plain_floats-FloatLaws) told_session
      told_session-IsSession told_session_short
