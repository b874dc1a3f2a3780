-- ===== src/Control/Accepted.antt =====
-- loom-proto/src/control.rs: what a frame that is decoded is known to be.
use loom_host.Base.{ℕ, ◌+◌, ◌≤◌, true, Bool-cases, inl, inr}
use loom_host.Base.{◌≡◌, refl, arith, Option, some, List, length, get_or, ok}
use loom_host.Base.Int.{ℤ}
use loom_host.Base.Bytes.{from_be32}
use loom_host.Cbor.Values.{Value, Entries, end, entry}
use loom_host.Cbor.Ciborium.{Ciborium}
use loom_host.Control.{
  Decoded, message, ignored, known_keys, max_frame_body, filter_body, allows, open_envelope,
  type_of, two_items, decode_frame,
}

-- Every key of a body is an integer of the list.
abbrev pub KeysAmong : List ℤ → Entries → Type 0
KeysAmong allowed end = Unit
KeysAmong allowed (entry k v es) = (allows allowed k ≡ true) × KeysAmong allowed es

filter_body-KeysAmong :
    (allowed : List ℤ) (es : Entries) → KeysAmong allowed (filter_body allowed es)
unfolding filter_body
filter_body-KeysAmong allowed end = tt
filter_body-KeysAmong allowed (entry k v es) = elim (Bool-cases (allows allowed k)) [
  | inl e ↦ rw e (e, filter_body-KeysAmong allowed es)
  | inr e ↦ rw e (filter_body-KeysAmong allowed es)
]

-- A body with known keys only is kept.
pub filter_body_known :
    (allowed : List ℤ) (es : Entries) → KeysAmong allowed es → filter_body allowed es ≡ es
unfolding filter_body
filter_body_known allowed end h = refl
filter_body_known allowed (entry k v es) (h, hs) = rw (h, filter_body_known allowed es hs)

-- The announced length of a frame.
abbrev pub frame_len : List ℕ → ℕ
frame_len bytes = let b = get_or bytes in from_be32 (b 0 0) (b 1 0) (b 2 0) (b 3 0)

-- A decoded message is of a registered type, and has keys of that type only.
abbrev pub IsRegistered : Decoded → Type 0
IsRegistered ignored = Unit
IsRegistered (message t body) =
    (allowed : List ℤ) × (known_keys t ≡ some allowed) × KeysAmong allowed body

open_envelope-IsRegistered : (v : Value) (d : Decoded) → open_envelope v ≡ ok d → IsRegistered d
unfolding open_envelope two_items type_of
open_envelope-IsRegistered v d e = grind (arith, filter_body-KeysAmong)

-- A frame that is decoded has its length prefix, announces at most 65536 bytes, and has them all;
-- a message that it holds is of a registered type, and every key of its body is defined for it.
pub decode_frame_sound :
    (from_reader : List ℕ → Option Ciborium) (bytes : List ℕ) (d : Decoded)
    → decode_frame from_reader bytes ≡ ok d
    → (frame_len bytes ≤ max_frame_body) × (4 + frame_len bytes ≤ length bytes) × IsRegistered d
unfolding decode_frame
decode_frame_sound from_reader bytes d e = grind (arith, open_envelope-IsRegistered)
