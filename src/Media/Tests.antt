-- ===== src/Media/Tests.antt =====
-- loomd/src/media/mod.rs: the theorems at concrete inputs.
use loom_host.Base.{ℕ, ◌≡◌, refl, inr, arith, true, false, List, [], ◌∷◌, All}
use loom_host.Session.{MediaParams, default_params}
use loom_host.Datagram.{frag_count_of, div_ceil}
use loom_host.Media.{
  injector, should_drop, send_loop, Tick, Encoded, access_unit, not_yet, failed, encode,
  open_encoder, config_of, frame_body, run, start, tick, reopen, produce, on_encoded,
}
use loom_host.Media.Injector.{send_loop_lossless}
use loom_host.Media.Framing.{AreFramed, Fits, run-AreFramed}

-- `drop_injector_off_never_drops`
injector_off : should_drop (injector 0) ≡ (injector 0, false)
unfolding should_drop injector
injector_off = refl

abbrev plain : Encoded → Tick
plain e = record {
  closed = false;
  resizes = [];
  reopens = true;
  idr_requests = 0;
  filled = true;
  capture_ts = 1000;
  encoded = e;
  takes = 9;
}

abbrev smaller : MediaParams
smaller = record default_params { width = 1280; height = 720 }

-- A frame, a round without an access unit, a resize with its keyframe, and the end.
abbrev rounds : List Tick
rounds =
    plain (access_unit true (1 ∷ 2 ∷ []))
    ∷ plain not_yet
    ∷ record (plain (access_unit true (3 ∷ []))) { resizes = smaller ∷ [] }
    ∷ record (plain failed) { closed = true }
    ∷ []

-- A resize forces a keyframe, and the numbers go on.
resize_forces :
    (tick (record (plain not_yet) { resizes = smaller ∷ [] }) (start 0 default_params false 0)).1
    ≡ open_encoder (config_of smaller) ∷ encode 0 true ∷ []
unfolding tick reopen produce on_encoded start
resize_forces = refl

rounds_fit : All (Fits 2 (2 ∷ [])) rounds
unfolding frag_count_of div_ceil frame_body
rounds_fit = (omega arith, (tt, (omega arith, (tt, tt))))

run-AreFramed_example : AreFramed 2 (2 ∷ []) (run rounds (start 2 default_params true 10))
run-AreFramed_example =
    run-AreFramed rounds 2 default_params true 10 (2 ∷ []) (omega arith) (inr (inr refl)) rounds_fit

abbrev two : List (List ℕ)
two = (1 ∷ []) ∷ (2 ∷ []) ∷ []

injector_percent : (injector 0).percent ≡ 0
unfolding injector
injector_percent = refl

send_loop_lossless_case : send_loop two 2 (injector 0) ≡ (injector 0, two)
send_loop_lossless_case = send_loop_lossless two 2 (injector 0) injector_percent (omega arith)
