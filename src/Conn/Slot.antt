-- ===== src/Conn/Slot.antt =====
-- loomd/src/conn.rs and endpoint.rs: one session at a time. The connections share a semaphore with
-- one permit; a connection takes it for its session, and the others are told BUSY.
use loom_host.Base.{ℕ, zero, suc, ◌+◌, ◌-◌, ◌≤◌, ◌<◌, ◌==◌, ◌≡◌, refl, arith, if◌then◌else◌}
use loom_host.Base.{
  Bool, true, false, Bool-cases, inl, inr, Option, none, some, List, [], ◌∷◌, ◌++◌,
}
use loom_host.Base.Int.{pos}
use loom_host.Cbor.{FloatOps}
use loom_host.Cbor.Values.{int, text, end, entry}
use loom_host.Control.{encode_frame}
use loom_host.Control.Codes
use loom_host.Conn.{Effect, wrote, finish, closed, World, Driver, idle, did, send_frame, error_body}

-- The permits left, and the sessions that run.
pub record Gate : Type 0 where
  pub permits : ℕ
  pub live : ℕ

abbrev pub opened_gate : Gate
opened_gate = record { permits = 1; live = 0 }

-- What becomes of a connection; one that is rejected, with what is done to it.
pub data Verdict : Type 0 where
  handshake_failed : Verdict
  rejected : List Effect → Verdict
  admitted : Verdict

-- `try_acquire_owned`; the session that takes the permit runs from then on.
unfoldable pub try_acquire : Gate → Option Gate
try_acquire g = elim (g.permits) [
  | zero ↦ none
  | suc left ↦ some (record { permits = left; live = g.live + 1 })
]

-- `handle` after the session: `drop(permit)`.
unfoldable pub depart : Gate → Gate
depart g = record { permits = g.permits + 1; live = g.live - 1 }

module _ (f : FloatOps) (w : World) where
  -- `reject_busy`; `opened` tells whether the client opened its control stream.
  unfoldable pub reject_busy : Bool → Driver
  unfolding did send_frame
  reject_busy opened =
      let told = (send_frame f w Codes.error (error_body Codes.busy) idle).1 in
      let d = if opened then (did finish told).1 else idle in
      (did (closed Codes.busy (Codes.ascii "busy")) d).1

  -- `handle` up to the session; `ready` tells whether the handshake succeeds.
  unfoldable pub arrive : Bool → Bool → Gate → Gate × Verdict
  arrive ready opened g =
      if ready
      then elim (try_acquire g) [
        | none ↦ (g, rejected (reject_busy opened).log)
        | some g' ↦ (g', admitted)
      ]
      else (g, handshake_failed)

  -- The tasks in any interleaving: a connection arrives, or a session that runs ends.
  pub data Step : Gate → Gate → Type 0 where
    arrives : (ready opened : Bool) (g : Gate) → Step g (arrive ready opened g).0
    departs : (g : Gate) → 0 < g.live → Step g (depart g)

  pub data Reach : Gate → Type 0 where
    here : Reach opened_gate
    then_ : {g h : Gate} → Reach g → Step g h → Reach h

  Step-keeps : {g h : Gate} → Step g h → g.permits + g.live ≡ 1 → h.permits + h.live ≡ 1
  unfolding arrive depart try_acquire
  Step-keeps (arrives ready opened g) k = ground arith
  Step-keeps (departs g p) k = ground arith

  Reach-one : {g : Gate} → Reach g → g.permits + g.live ≡ 1
  Reach-one here = refl
  Reach-one (then_ r s) = Step-keeps s (Reach-one r)

  -- ERROR with code 2, BUSY.
  abbrev pub busy_frame : List ℕ
  busy_frame =
      encode_frame f 0x40
        (entry (int (pos 0)) (int (pos 2)) (entry (int (pos 1)) (text (Codes.ascii "BUSY")) end))

  -- What a client is told that comes too late: on its control stream, if it has opened it and can be written to, ERROR
  -- with BUSY, and then the end of the stream; and in any case the close with BUSY.
  abbrev pub told_busy : Bool → List Effect
  told_busy opened =
      let written = if w.write_ok 0 then wrote busy_frame ∷ [] else [] in
      let on_stream = if opened then written ++ finish ∷ [] else [] in
      on_stream ++ closed 2 (Codes.ascii "busy") ∷ []

  reject_busy-told_busy : (opened : Bool) → (reject_busy opened).log ≡ told_busy opened
  unfolding reject_busy did send_frame error_body Codes.name
  reject_busy-told_busy false = refl
  reject_busy-told_busy true = elim (Bool-cases (w.write_ok 0)) [
    | inl y ↦ rw y refl
    | inr n ↦ rw n refl
  ]

  -- In every reachable state one session runs at most, and a connection whose handshake succeeds is admitted if none
  -- runs; if one does, it is rejected, and told BUSY by a message, where it has opened its stream and can be written
  -- to, and by the close of the connection.
  pub arrive-admits :
      (g : Gate) (opened : Bool)
      → Reach g
      → (g.live ≤ 1)
        × ((arrive true opened g).1
            ≡ (if g.live == 0 then admitted else rejected (told_busy opened)))
  unfolding arrive try_acquire
  arrive-admits g opened r =
      let k = Reach-one r in let told = reject_busy-told_busy opened in (omega arith, ground arith)
