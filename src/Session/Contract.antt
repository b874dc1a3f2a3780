-- ===== src/Session/Contract.antt =====
-- loomd/src/session.rs: what the session's driver may rely on, said of the list of outputs alone
-- (PROTOCOL.md §3.4, §8): one start of media, one CONFIG in flight, and no output after the close.
use loom_host.Base.{ℕ, ◌+◌, ◌%◌, ◌^◌, Bool, true, false, ◌≡◌, refl, if◌then◌else◌, ◌==◌}
use loom_host.Base.{some, List, [], ◌∷◌, ◌++◌}
use loom_host.Base.Int.{pos}
use loom_host.Cbor.Values.{Entries, end}
use loom_host.Control.Codes
use loom_host.Session.Body.{int_key, pair_elem}
use loom_host.Session.{
  Output, send, start_media, request_idr, reconfigure, clock_pong, stats, close, MediaParams,
}

-- What the outputs so far show: the last CONFIG sent, whether it is not yet acted on, whether
-- media started, and whether the session is closed.
pub record View : Type 0 where
  pub generation : ℕ
  pub told : Entries
  pub in_flight : Bool
  pub started : Bool
  pub over : Bool

abbrev pub begin : View
begin = record { generation = 0; told = end; in_flight = false; started = false; over = false }

-- A CONFIG body announces a generation and a size.
abbrev pub Announces : Entries → ℕ → Type 0
Announces body n = int_key body (pos 0) ≡ some (pos n)

abbrev pub Sizes : Entries → MediaParams → Type 0
Sizes body p =
    (pair_elem body (pos 2) 0 ≡ some (pos p.width))
    × (pair_elem body (pos 2) 1 ≡ some (pos p.height))

abbrev pub next_generation : ℕ → ℕ
next_generation n = (n + 1) % 2 ^ 64

abbrev pub Allowed : View → Output → Type 0
Allowed v (send t body) =
    (v.over ≡ false)
    × (t ≡ Codes.config → (v.in_flight ≡ false) × Announces body (next_generation v.generation))
Allowed v (start_media multi) =
    (v.over ≡ false) × (v.started ≡ false) × (v.in_flight ≡ true) × (v.generation ≡ 1)
Allowed v (request_idr id) = (v.over ≡ false) × (v.started ≡ true)
Allowed v (reconfigure p) =
    (v.over ≡ false) × (v.started ≡ true) × (v.in_flight ≡ true) × Sizes v.told p
Allowed v (clock_pong t) = v.over ≡ false
Allowed v (stats r) = (v.over ≡ false) × (v.started ≡ true)
Allowed v (close code) = v.over ≡ false

abbrev pub after : View → Output → View
after v (send t body) =
    if t == Codes.config
    then record v { generation = next_generation v.generation; told = body; in_flight = true }
    else v
after v (start_media multi) = record v { started = true; in_flight = false }
after v (request_idr id) = v
after v (reconfigure p) = record v { in_flight = false }
after v (clock_pong t) = v
after v (stats r) = v
after v (close code) = record v { over = true }

abbrev pub KeepsContract : View → List Output → Type 0
KeepsContract v [] = Unit
KeepsContract v (o ∷ os) = Allowed v o × KeepsContract (after v o) os

abbrev pub view : View → List Output → View
view v [] = v
view v (o ∷ os) = view (after v o) os

pub KeepsContract-append :
    (v : View) (xs ys : List Output)
    → KeepsContract v xs
    → KeepsContract (view v xs) ys
    → KeepsContract v (xs ++ ys)
KeepsContract-append v [] ys h k = k
KeepsContract-append v (x ∷ xs) ys h k = (h.0, KeepsContract-append (after v x) xs ys h.1 k)

pub view-append : (v : View) (xs ys : List Output) → view v (xs ++ ys) ≡ view (view v xs) ys
view-append v [] ys = refl
view-append v (x ∷ xs) ys = view-append (after v x) xs ys
