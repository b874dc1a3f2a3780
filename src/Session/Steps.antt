-- ===== src/Session/Steps.antt =====
-- loomd/src/session.rs: each frame continues the log of outputs that the session shows.
use loom_host.Base.{ℕ, ◌==◌, ◌&&◌, true, false}
use loom_host.Base.{Bool-cases, Option-cases, ◌≡◌, refl, ◌∙◌, subst, sym, inl, inr, arith}
use loom_host.Base.{some}
use loom_host.Base.Int.{pos, as_u64}
use loom_host.Cbor.Values.{Entries}
use loom_host.Control.{Decoded, message, ignored}
use loom_host.Control.Codes
use loom_host.Session.Body.{pair_elem}
use loom_host.Session.{
  State, wait_hello, wait_config_ack, streaming, closed, HostSession, config_body, on_frame,
  on_message, dispatch, on_streaming, on_viewport, resize, on_reconfig_ack, protocol_violation,
  resized, is_closed, clamp_viewport, is_some,
}
use loom_host.Session.Contract.{View, Announces, next_generation}
use loom_host.Session.Invariant.{
  Shown, Shows, Continues, fatal-Continues, config_body-Announces, config_body-Sizes,
  on_hello-Continues, on_config_ack-Continues,
}

resized_lem :
    (size : ℕ × ℕ) (s : HostSession)
    → ((resized size s).state ≡ s.state)
      × ((resized size s).generation ≡ next_generation s.generation)
      × ((resized size s).pending_generation ≡ some (next_generation s.generation))
unfolding resized
resized_lem size s = (refl, refl, refl)

resize-Continues :
    (w h : ℕ) (s : HostSession) (v : View)
    → s.state ≡ streaming
    → Shows streaming s v
    → Continues v (resize s w h)
unfolding resize
resize-Continues w h s v e sh =
    let size = clamp_viewport s w h in
    let s' = resized size s in
    let (state, gen, pend) = resized_lem size s in
    let said : Announces (config_body s') (next_generation v.generation) =
      rw (sh.3, ← gen) (config_body-Announces s') in
    let v' : View = record v {
      generation = next_generation v.generation;
      told = config_body s';
      in_flight = true;
    } in
    let shown : Shows streaming s' v' =
      (sh.0, sh.1, rw pend, rw (gen, sh.3), inr (rw (pend, gen)), config_body-Sizes s') in
    elim (Bool-cases (is_some s.pending_generation)) [
      | inl busy ↦ rw busy (tt, rw e sh)
      | inr idle ↦ elim (Bool-cases (size.0 == s.params.width && size.1 == s.params.height)) [
        | inl same ↦ rw (idle, same) (tt, rw e sh)
        | inr other ↦
            rw (idle, other)
              (
                ((sh.0, λ _. (sh.2 ∙ idle, said)), tt),
                subst (λ p. Shows p s' v') (sym (state ∙ e)) shown,
              )
      ]
    ]

on_viewport-Continues :
    (body : Entries) (s : HostSession) (v : View)
    → s.state ≡ streaming
    → Shows streaming s v
    → Continues v (on_viewport body s)
unfolding on_viewport
on_viewport-Continues body s v e sh = elim (Option-cases (pair_elem body (pos 0) 0)) [
  | inl no_w ↦ rw (no_w, on_viewport) (tt, rw e sh)
  | inr (w, has_w) ↦ elim (Option-cases (pair_elem body (pos 0) 1)) [
    | inl no_h ↦ rw (has_w, on_viewport) (rw no_h (tt, rw e sh))
    | inr (h, has_h) ↦
        rw (has_w, on_viewport) (rw has_h (resize-Continues (as_u64 w) (as_u64 h) s v e sh))
  ]
]

on_reconfig_ack-Continues :
    (body : Entries) (s : HostSession) (v : View)
    → s.state ≡ streaming
    → Shows streaming s v
    → Continues v (on_reconfig_ack body s)
unfolding on_reconfig_ack protocol_violation
on_reconfig_ack-Continues body s v e sh =
    ground
      (arith, fatal-Continues Codes.violation (Codes.ascii "unexpected message for state") s v sh.0)

on_streaming-Continues :
    (t : ℕ) (body : Entries) (s : HostSession) (v : View)
    → s.state ≡ streaming
    → Shows streaming s v
    → Continues v (on_streaming t body s)
unfolding on_streaming protocol_violation
on_streaming-Continues t body s v e sh = ground (
  arith,
  on_viewport-Continues body s v e sh,
  on_reconfig_ack-Continues body s v e sh,
  fatal-Continues Codes.violation (Codes.ascii "unexpected message for state") s v sh.0,
)

dispatch-Continues :
    (p : State) (t : ℕ) (body : Entries) (s : HostSession) (v : View)
    → s.state ≡ p
    → Shows p s v
    → Continues v (dispatch p t body s)
unfolding dispatch
dispatch-Continues wait_hello t body s v e sh = on_hello-Continues t body s v sh
dispatch-Continues wait_config_ack t body s v e sh = on_config_ack-Continues t body s v sh
dispatch-Continues streaming t body s v e sh = on_streaming-Continues t body s v e sh
dispatch-Continues closed t body s v e sh = (tt, rw e sh)

-- An open session has not said that it is over.
Shows-over :
    (p : State) (s : HostSession) (v : View) → is_closed p ≡ false → Shows p s v → v.over ≡ false
Shows-over wait_hello s v h sh = sh.0
Shows-over wait_config_ack s v h sh = sh.0
Shows-over streaming s v h sh = sh.0
Shows-over closed s v h sh = cc

on_message-Continues :
    (t : ℕ) (body : Entries) (s : HostSession) (v : View)
    → Shown s v
    → Continues v (on_message t body s)
unfolding on_message
on_message-Continues t body s v sh = elim (Bool-cases (is_closed s.state)) [
  | inl shut ↦ rw shut (tt, sh)
  | inr open_ ↦
      let over = Shows-over s.state s v open_ sh in
      let rest = dispatch-Continues s.state t body s v refl sh in
      elim (Bool-cases (t == Codes.bye)) [
        | inl bye ↦ rw (open_, bye) ((over, tt), refl)
        | inr other ↦ elim (Bool-cases (t == Codes.clock_ping)) [
          | inl ping ↦ rw (open_, other, ping) ((over, tt), sh)
          | inr last ↦ rw (open_, other, last) rest
        ]
      ]
]

-- One frame continues the log that the session shows.
pub on_frame-Continues :
    (d : Decoded) (s : HostSession) (v : View) → Shown s v → Continues v (on_frame d s)
unfolding on_frame
on_frame-Continues (message t body) s v sh = on_message-Continues t body s v sh
on_frame-Continues ignored s v sh = (tt, sh)
