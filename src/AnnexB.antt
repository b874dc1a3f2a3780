-- ===== src/AnnexB.antt =====
-- loom-encode/src/annexb.rs: the conversion of length-prefixed NAL units to Annex-B.
-- A byte string is a list of bytes. `rest` is `src[offset..]`, so that a test of `offset + k`
-- against `src.len()` is one of `k` against the length of `rest`; the sum overflows no `usize`
-- where it is at most `src.len()`.
pub mod Units
pub mod Convert
mod Tests
use loom_host.Base.{ℕ, zero, suc, ◌+◌, ◌*◌, ◌/◌, ◌%◌, ◌^◌, bit_and, ltb, leb, ◌==◌, if◌then◌else◌}
use loom_host.Base.{Bool, true, false, ◌||◌, Option, none, some, Result, ok, err}
use loom_host.Base.{List, [], ◌∷◌, ◌++◌, length, get_or, take, drop}

abbrev pub start_code : List ℕ
start_code = 0 ∷ 0 ∷ 0 ∷ 1 ∷ []

abbrev pub nal_idr_w_radl : ℕ
nal_idr_w_radl = 19

abbrev pub nal_idr_n_lp : ℕ
nal_idr_n_lp = 20

-- `EncodeError::Bitstream` with each of its three messages.
pub data BitstreamError : Type 0 where
  truncated_prefix length_exceeds zero_length : BitstreamError

-- The loop over the prefix, from the length so far. The shifted length leaves the low byte free,
-- where `|` adds.
unfoldable pub prefix_loop : ℕ → List ℕ → ℕ
prefix_loop len [] = len
prefix_loop len (byte ∷ bytes) = prefix_loop (len * 256 % 2 ^ 64 + byte) bytes

-- `nal_type` and the test on it, of the first byte of a unit.
unfoldable pub is_idr : ℕ → Bool
is_idr byte =
    let nal_type = bit_and (byte / 2) 0x3f in nal_type == nal_idr_w_radl || nal_type == nal_idr_n_lp

-- What an iteration finds at the front of `rest`: an error, or the unit and what follows it.
unfoldable pub next_unit : ℕ → List ℕ → Result (List ℕ × List ℕ) BitstreamError
next_unit nal_length_size rest =
    let len = prefix_loop 0 (take nal_length_size rest) in
    let body = drop nal_length_size rest in
    if ltb (length rest) nal_length_size
    then err truncated_prefix
    else if ltb (length body) len
    then err length_exceeds
    else if len == 0
    then err zero_length
    else ok (take len body, drop len body)

-- The loop, with fuel for its rounds; `none` is the end of the fuel.
unfoldable pub append_loop :
    ℕ → ℕ → List ℕ → List ℕ → Bool → Option (List ℕ × Result Bool BitstreamError)
append_loop fuel nal_length_size [] out keyframe = some (out, ok keyframe)
append_loop zero nal_length_size (b ∷ bs) out keyframe = none
append_loop (suc fuel) nal_length_size (b ∷ bs) out keyframe =
    elim (next_unit nal_length_size (b ∷ bs)) [
      | err e ↦ some (out, err e)
      | ok (nal, rest) ↦
          append_loop fuel nal_length_size rest (out ++ (start_code ++ nal))
            (keyframe || is_idr (get_or nal 0 0))
    ]

-- `append`: what `out` is afterwards, and the result.
unfoldable pub append : List ℕ → ℕ → List ℕ → Option (List ℕ × Result Bool BitstreamError)
append src nal_length_size out = append_loop (length src) nal_length_size src out false
