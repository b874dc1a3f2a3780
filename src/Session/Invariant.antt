-- ===== src/Session/Invariant.antt =====
-- loomd/src/session.rs: how the session's fields answer to what its outputs show.
use loom_host.Base.{ℕ, ◌==◌, true, false}
use loom_host.Base.{Bool-cases, ◌≡◌, ◌⊎◌, refl, subst, inl, inr, arith}
use loom_host.Base.{none, some, List}
use loom_host.Base.Int.{pos}
use loom_host.Cbor.Values.{Entries}
use loom_host.Control.Codes
use loom_host.Session.Body.{int_key, pair_elem, offers_codec}
use loom_host.Session.{
  State, wait_hello, wait_config_ack, streaming, closed, Output, HostSession, config_body, on_hello,
  accept_hello, on_config_ack, fatal, protocol_violation, greeted, is_number, is_some,
  protocol_version, codec_hevc,
}
use loom_host.Session.Contract.{View, Announces, Sizes, KeepsContract, view}

-- The phase tells what the outputs show; a generation is pending exactly while a CONFIG is in
-- flight in mid-session, and it is the last one.
abbrev pub Shows : State → HostSession → View → Type 0
Shows wait_hello s v =
    (v.over ≡ false)
    × (v.started ≡ false)
    × (v.in_flight ≡ false)
    × (v.generation ≡ 0)
    × (s.pending_generation ≡ none)
Shows wait_config_ack s v =
    (v.over ≡ false)
    × (v.started ≡ false)
    × (v.in_flight ≡ true)
    × (v.generation ≡ 1)
    × (s.generation ≡ 1)
    × (s.pending_generation ≡ none)
    × Sizes v.told s.params
Shows streaming s v =
    (v.over ≡ false)
    × (v.started ≡ true)
    × (v.in_flight ≡ is_some s.pending_generation)
    × (v.generation ≡ s.generation)
    × ((s.pending_generation ≡ none) ⊎ (s.pending_generation ≡ some s.generation))
    × Sizes v.told s.params
Shows closed s v = v.over ≡ true

abbrev pub Shown : HostSession → View → Type 0
Shown s v = Shows s.state s v

-- An answer that continues the log and keeps the correspondence.
abbrev pub Continues : View → HostSession × List Output → Type 0
Continues v r = KeepsContract v r.1 × Shown r.0 (view v r.1)

pub config_body-Announces : (s : HostSession) → Announces (config_body s) s.generation
unfolding config_body int_key
config_body-Announces s = refl

pub config_body-Sizes : (s : HostSession) → Sizes (config_body s) s.params
unfolding config_body pair_elem
config_body-Sizes s = (refl, refl)

pub fatal-Continues :
    (code : ℕ) (detail : List ℕ) (s : HostSession) (v : View)
    → v.over ≡ false
    → Continues v (fatal code detail s)
unfolding fatal
fatal-Continues code detail s v h = ground arith

greeted_lem :
    (body : Entries) (s : HostSession)
    → ((greeted body s).state ≡ wait_config_ack)
      × ((greeted body s).generation ≡ 1)
      × ((greeted body s).pending_generation ≡ s.pending_generation)
unfolding greeted
greeted_lem body s = ground arith

accept_hello-Continues :
    (body : Entries) (s : HostSession) (v : View)
    → Shows wait_hello s v
    → Continues v (accept_hello body s)
unfolding accept_hello
accept_hello-Continues body s v h =
    let (state, gen, pend) = greeted_lem body s in
    let said : Announces (config_body (greeted body s)) 1 =
      subst (λ n. Announces (config_body (greeted body s)) n) gen
        (config_body-Announces (greeted body s)) in
    (
      ((h.0, λ e. absurd (ground arith)), ((h.0, λ _. (h.2, rw (h.3) said)), tt)),
      rw state (ground (arith, config_body-Sizes (greeted body s))),
    )

pub on_hello-Continues :
    (t : ℕ) (body : Entries) (s : HostSession) (v : View)
    → Shows wait_hello s v
    → Continues v (on_hello t body s)
unfolding on_hello protocol_violation
on_hello-Continues t body s v h =
    let wrong =
      fatal-Continues Codes.violation (Codes.ascii "unexpected message for state") s v h.0 in
    let version =
      fatal-Continues Codes.version_unsupported (Codes.ascii "unsupported protocol_version") s v
        h.0 in
    let codec =
      fatal-Continues Codes.no_common_codec (Codes.ascii "no common codec (host: HEVC)") s v h.0 in
    let fine = accept_hello-Continues body s v h in
    elim (Bool-cases (t == Codes.hello)) [
      | inl is_hello ↦ elim (Bool-cases (is_number (int_key body (pos 0)) protocol_version)) [
        | inl one ↦ elim (Bool-cases (offers_codec body codec_hevc)) [
          | inl hevc ↦ rw (is_hello, one, hevc) fine
          | inr none_common ↦ rw (is_hello, one, none_common) codec
        ]
        | inr other ↦ rw (is_hello, other) version
      ]
      | inr other ↦ rw other wrong
    ]

pub on_config_ack-Continues :
    (t : ℕ) (body : Entries) (s : HostSession) (v : View)
    → Shows wait_config_ack s v
    → Continues v (on_config_ack t body s)
unfolding on_config_ack protocol_violation
on_config_ack-Continues t body s v h =
    let wrong =
      fatal-Continues Codes.violation (Codes.ascii "unexpected message for state") s v h.0 in
    elim (Bool-cases (t == Codes.config_ack)) [
      | inl is_ack ↦ elim (Bool-cases (is_number (int_key body (pos 0)) s.generation)) [
        | inl right ↦ rw (is_ack, right) (ground arith)
        | inr other ↦ rw (is_ack, other) wrong
      ]
      | inr other ↦ rw other wrong
    ]
