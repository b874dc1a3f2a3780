-- ===== src/Control.antt =====
-- loom-proto/src/control.rs, error.rs and errors.rs: the control stream's message registry, its
-- frames, and the protocol's error codes.
pub mod Codes
pub mod Frames
pub mod Accepted
mod Tests
use loom_host.Base.{ℕ, ◌+◌, ◌%◌, ◌^◌, ltb, ◌==◌, if◌then◌else◌, Bool, true, false, not, ◌||◌}
use loom_host.Base.{Option, none, some, List, [], ◌∷◌, ◌++◌, length, get_or, take, drop, any}
use loom_host.Base.{Result, ok, err, ◌>>=◌}
use loom_host.Base.Int.{ℤ, pos, negsuc, leb_ℤ, eqb_ℤ, as_u64}
use loom_host.Base.Bytes.{be32, from_be32}
use loom_host.Cbor.{FloatOps, to_canonical}
use loom_host.Cbor.Values.{
  Value, Items, Entries, int, dict, array, nil, cons, end, entry, as_int, as_map, as_array,
  count_items,
}
use loom_host.Cbor.Ciborium.{Ciborium, decode}
use Codes.{
  hello, welcome, config, config_ack, start, input, idr_request, stats, viewport, clock_ping,
  clock_pong, error, bye, pair_a, pair_b, pair_c, pair_result,
}

-- `Error`, the two ways in which decoding can fail.
pub data Error : Type 0 where
  protocol_violation : Error
  keymap : List ℕ → Error

abbrev pub max_frame_body : ℕ
max_frame_body = 65536

abbrev up_to : ℕ → List ℤ
up_to ℕ.zero = []
up_to (ℕ.suc n) = pos n ∷ up_to n

-- The keys of each registered message, written from the highest down.
unfoldable pub known_keys : ℕ → Option (List ℤ)
known_keys t =
    if t == hello
    then some (up_to 6)
    else if t == welcome
    then some (up_to 4)
    else if t == config
    then some (up_to 7)
    else if t == config_ack
    then some (up_to 1)
    else if t == start
    then some []
    else if t == input
    then some (up_to 2)
    else if t == idr_request
    then some (up_to 2)
    else if t == stats
    then some (up_to 8)
    else if t == viewport
    then some (up_to 1)
    else if t == clock_ping
    then some (up_to 1)
    else if t == clock_pong
    then some (up_to 3)
    else if t == error
    then some (up_to 2)
    else if t == bye
    then some (up_to 1)
    else if t == pair_a
    then some (up_to 1)
    else if t == pair_b
    then some (up_to 2)
    else if t == pair_c
    then some (up_to 1)
    else if t == pair_result
    then some (up_to 2)
    else none

pub data Decoded : Type 0 where
  message : ℕ → Entries → Decoded
  ignored : Decoded

module _ (f : FloatOps) where
  -- `encode_frame`
  unfoldable pub encode_frame : ℕ → Entries → List ℕ
  encode_frame msg_type body =
      let cbor = to_canonical f (array (cons (int (pos msg_type)) (cons (dict body) nil))) in
      be32 (length cbor % 2 ^ 32) ++ cbor

abbrev pub allows : List ℤ → Value → Bool
allows allowed (int k) = any (λ a. eqb_ℤ a k) allowed
allows allowed _ = false

-- The loop that keeps the known keys.
unfoldable pub filter_body : List ℤ → Entries → Entries
filter_body allowed end = end
filter_body allowed (entry k v es) =
    let rest = filter_body allowed es in if allows allowed k then entry k v rest else rest

-- `bytes.get(4..4 + len)`
abbrev pub body_slice : ℕ → List ℕ → Option (List ℕ)
body_slice len bytes = if ltb (length bytes) (4 + len) then none else some (take len (drop 4 bytes))

-- `ok_or(Error::ProtocolViolation)`
abbrev pub or_violation {ℓ} : {A : Type ℓ} → Option A → Result A Error
or_violation none = err protocol_violation
or_violation (some a) = ok a

-- The message type of an envelope: an integer that is not negative, `as u64`.
unfoldable pub type_of : Value → Result ℕ Error
type_of v = elim (as_int v) [
  | none ↦ err protocol_violation
  | some i ↦ if leb_ℤ (pos 0) i then ok (as_u64 i) else err protocol_violation
]

-- The two elements of an envelope.
unfoldable pub two_items : Items → Result (Value × Value) Error
two_items (cons a (cons b nil)) = ok (a, b)
two_items nil = err protocol_violation
two_items (cons a nil) = err protocol_violation
two_items (cons a (cons b (cons c rest))) = err protocol_violation

-- The part of `decode_frame` from the decoded envelope on.
unfoldable pub open_envelope : Value → Result Decoded Error
open_envelope value = do
  items ← or_violation (as_array value)
  pair ← two_items items
  msg_type ← type_of pair.0
  body ← or_violation (as_map pair.1)
  elim (known_keys msg_type) [
    | none ↦ ok ignored
    | some allowed ↦ ok (message msg_type (filter_body allowed body))
  ]

-- `decode_frame`, over the CBOR reader of the `ciborium` crate.
unfoldable pub decode_frame : (List ℕ → Option Ciborium) → List ℕ → Result Decoded Error
decode_frame from_reader bytes =
    let b = get_or bytes in
    let len = from_be32 (b 0 0) (b 1 0) (b 2 0) (b 3 0) in
    if ltb (length bytes) 4
    then err protocol_violation
    else if ltb max_frame_body len
    then err protocol_violation
    else do
      body ← or_violation (body_slice len bytes)
      value ← or_violation (decode from_reader body)
      open_envelope value
