-- ===== src/Session/Handshake.antt =====
-- loomd/src/session.rs: HELLO, WELCOME and CONFIG, CONFIG_ACK and START (PROTOCOL.md §3.4).
use loom_host.Base.{ℕ, ◌≡◌, ◌≢◌, ◌↔◌, refl, Bool, true, false, not, ◌&&◌, bit_and, ◌==◌, arith}
use loom_host.Base.{if◌then◌else◌, is_empty, List, [], ◌∷◌, Option, none, some}
use loom_host.Base.Int.{pos, as_u64}
use loom_host.Cbor.Values.{Entries, end, count_entries}
use loom_host.Control.{message}
use loom_host.Control.Codes
use loom_host.Session.Body.{int_key, offers_codec}
use loom_host.Session.{
  HostSession, MediaParams, StreamConfig, Output, send, start_media, close, wait_hello,
  wait_config_ack, streaming, new, on_frame, on_message, dispatch, on_hello, accept_hello, greeted,
  on_config_ack, run, welcome_body, config_body, codec_hevc, feature_multi_display, or_zero, fatal,
}

-- A HELLO that this host accepts.
abbrev pub Accepts : Entries → Type 0
Accepts body = (int_key body (pos 0) ≡ some (pos 1)) × (offers_codec body codec_hevc ≡ true)

-- Multi-display is offered by HELLO key 5 bit 1, and served by a host with further displays.
abbrev pub multi : Entries → List StreamConfig → Bool
multi body extra =
    not (bit_and (as_u64 (or_zero (int_key body (pos 5)))) feature_multi_display == 0)
    && not (is_empty extra)

greets :
    (body : Entries) (s : HostSession)
    → s.state ≡ wait_hello
    → Accepts body
    → on_frame (message Codes.hello body) s ≡ (
      greeted body s,
      send Codes.welcome (welcome_body (greeted body s))
          ∷ send Codes.config (config_body (greeted body s))
          ∷ [],
    )
unfolding on_frame on_message dispatch on_hello accept_hello
greets body s e h = ground arith

starts :
    (ack : Entries) (s : HostSession)
    → s.state ≡ wait_config_ack
    → int_key ack (pos 0) ≡ some (pos s.generation)
    → on_frame (message Codes.config_ack ack) s
      ≡ (record s { state = streaming }, send Codes.start end ∷ start_media s.multi_active ∷ [])
unfolding on_frame on_message dispatch on_config_ack
starts ack s e h = ground arith

greeted_facts :
    (body : Entries) (s : HostSession)
    → ((greeted body s).state ≡ wait_config_ack)
      × ((greeted body s).generation ≡ 1)
      × ((greeted body s).multi_active ≡ multi body s.extra_streams)
      × ((greeted body s).params ≡ s.params)
unfolding greeted
greeted_facts body s = ground arith

-- A fresh session that is sent an acceptable HELLO and then the CONFIG_ACK of generation 1 answers
-- WELCOME, CONFIG, START, and the start of media, and it streams with the host's own parameters.
-- Media starts in multi-display form exactly if the client offers the feature and the host has
-- further displays.
pub run-handshake :
    (name id : List ℕ) (p : MediaParams) (extra : List StreamConfig) (body ack : Entries)
    → Accepts body
    → int_key ack (pos 0) ≡ some (pos 1)
    → let s = greeted body (new name id p extra) in
      let r =
        run (message Codes.hello body ∷ message Codes.config_ack ack ∷ []) (new name id p extra) in
      (r.1
        ≡ send Codes.welcome (welcome_body s)
          ∷ send Codes.config (config_body s)
          ∷ send Codes.start end
          ∷ start_media (multi body extra)
          ∷ [])
      × (r.0.state ≡ streaming)
      × (r.0.params ≡ p)
unfolding run
run-handshake name id p extra body ack h ha =
    let s0 = new name id p extra in
    let (state, gen, m, params) = greeted_facts body s0 in
    let first = greets body s0 (unfold new in refl) h in
    let second = starts ack (greeted body s0) state (rw gen ha) in
    let m' : (greeted body s0).multi_active ≡ multi body extra = unfold new in m in
    let p' : (greeted body s0).params ≡ p = unfold new in params in
    rw (first, second) (rw m' refl, refl, p')

-- What WELCOME and CONFIG say of multi-display: without it, WELCOME has no feature key and CONFIG
-- no key for further streams, whatever displays the host has.
pub bodies_multi :
    (s : HostSession)
    → (int_key (welcome_body s) (pos 3)
        ≡ (if s.multi_active then some (pos feature_multi_display) else none))
      × (count_entries (welcome_body s) ≡ (if s.multi_active then 4 else 3))
      × (count_entries (config_body s) ≡ (if s.multi_active then 7 else 6))
unfolding welcome_body config_body int_key
bodies_multi s = ground arith

-- The code of the close among some outputs.
abbrev pub close_code : List Output → Option ℕ
close_code [] = none
close_code (close c ∷ os) = some c
close_code (send t b ∷ os) = close_code os
close_code (o ∷ os) = close_code os

-- A session that waits for HELLO answers one by a close with VERSION_UNSUPPORTED exactly if the
-- version is not 1, by a close with NO_COMMON_CODEC exactly if it is 1 and HEVC is not offered, and
-- by no close exactly if the HELLO is acceptable.
pub hello_refusals :
    (body : Entries) (s : HostSession)
    → s.state ≡ wait_hello
    → let code = close_code (on_frame (message Codes.hello body) s).1 in
      ((code ≡ some Codes.version_unsupported) ↔ (int_key body (pos 0) ≢ some (pos 1)))
      × ((code ≡ some Codes.no_common_codec)
          ↔ ((int_key body (pos 0) ≡ some (pos 1)) × (offers_codec body codec_hevc ≡ false)))
      × ((code ≡ none) ↔ Accepts body)
unfolding on_frame on_message dispatch on_hello accept_hello fatal
hello_refusals body s e = ground arith
