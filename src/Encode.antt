-- ===== src/Encode.antt =====
-- loom-encode/src/videotoolbox.rs: what becomes of a frame that VideoToolbox has encoded. What the platform hands
-- over is input: statuses, sample buffers and parameter sets. A panic is `none`.
pub mod Headers
mod Tests
use loom_host.Base.{ℕ, zero, suc, ◌+◌, ◌-◌, ◌^◌, ◌==◌, if◌then◌else◌, Bool, true, false, not, ◌&&◌}
use loom_host.Base.{Option, none, some, List, [], ◌∷◌, ◌++◌, Result, ok, err}
use loom_host.Base.Grid.{or_panic}
use loom_host.Base.Int.{ℤ, pos, negsuc}
use loom_host.AnnexB.{BitstreamError, start_code, append}

pub data Fault : Type 0 where
  no_format no_block no_pool : Fault
  malformed : BitstreamError → Fault

-- `EncodeError`, of this encoder.
pub data EncodeError : Type 0 where
  video_toolbox : ℤ → EncodeError
  bitstream : Fault → EncodeError

pub record AccessUnit : Type 0 where
  pub keyframe : Bool
  pub bytes : List ℕ

abbrev pub is_zero : ℤ → Bool
is_zero (pos n) = n == 0
is_zero (negsuc n) = false

abbrev pub as_usize : ℤ → ℕ
as_usize (pos n) = n
as_usize (negsuc n) = 2 ^ 64 - 1 - n

-- A format description: the status of the query for the first parameter set, with the count and the size of the
-- prefixes, and what the query for each set gives.
pub record Format : Type 0 where
  pub status : ℤ
  pub count : ℕ
  pub nal_length_size : ℤ
  pub set : ℕ → ℤ × Option (List ℕ)

pub record Sample : Type 0 where
  pub format : Option Format
  -- the status of the query for the bytes, and the bytes, if they have an address
  pub block : Option (ℤ × Option (List ℕ))

abbrev pub set_of : ℤ × Option (List ℕ) → Result (List ℕ) EncodeError
set_of (status, none) = err (video_toolbox status)
set_of (status, some bytes) = if is_zero status then ok bytes else err (video_toolbox status)

-- The parameter sets from `index` on, `left` of them, behind `out`.
unfoldable pub append_sets : Format → ℕ → ℕ → List ℕ → Result (List ℕ) EncodeError
append_sets format zero index out = ok out
append_sets format (suc left) index out =
    let rest = λ (set : List ℕ). append_sets format left (index + 1) (out ++ (start_code ++ set)) in
    elim (set_of (format.set index)) [ err e ↦ err e | ok set ↦ rest set ]

abbrev pub with_sets : Format → Bool → List ℕ → Result AccessUnit EncodeError
with_sets format keyframe body = elim (append_sets format format.count 0 []) [
  | err e ↦ err e
  | ok sets ↦ ok (record { keyframe = keyframe; bytes = sets ++ body })
]

abbrev pub converted :
    Format → Bool → List ℕ × Result Bool BitstreamError → Result AccessUnit EncodeError
converted format repeat_headers (body, err e) = err (bitstream (malformed e))
converted format repeat_headers (body, ok keyframe) =
    if not (keyframe && repeat_headers)
    then ok (record { keyframe = keyframe; bytes = body })
    else with_sets format keyframe body

abbrev pub convert_bytes : Format → Bool → List ℕ → Option (Result AccessUnit EncodeError)
convert_bytes format repeat_headers src =
    if is_zero format.status
    then or_panic (append src (as_usize format.nal_length_size) [])
        (λ r. some (converted format repeat_headers r))
    else some (err (video_toolbox format.status))

abbrev pub convert_block :
    Format → Bool → ℤ × Option (List ℕ) → Option (Result AccessUnit EncodeError)
convert_block format repeat_headers (status, none) = some (err (video_toolbox status))
convert_block format repeat_headers (status, some src) =
    if is_zero status
    then convert_bytes format repeat_headers src
    else some (err (video_toolbox status))

unfoldable pub convert : Sample → Bool → Option (Result AccessUnit EncodeError)
convert sample repeat_headers = elim sample.format [
  | none ↦ some (err (bitstream no_format))
  | some format ↦ elim sample.block [
    | none ↦ some (err (bitstream no_block))
    | some block ↦ convert_block format repeat_headers block
  ]
]

pub record Sink : Type 0 where
  pub au : Option AccessUnit
  pub error : Option ℤ
  pub repeat_headers : Bool

-- `get_or_insert`
abbrev pub first_error : Option ℤ → ℤ → Option ℤ
first_error (some old) new = some old
first_error none new = some new

abbrev pub store : Result AccessUnit EncodeError → Sink → Sink
store (ok au) s = record s { au = some au }
store (err (video_toolbox status)) s = record s { error = first_error s.error status }
store (err (bitstream fault)) s = record s { error = first_error s.error (negsuc 0) }

-- The status of a frame, and its sample buffer, if it was not dropped.
abbrev pub Call : Type 0
Call = ℤ × Option Sample

unfoldable pub output_callback : Call → Sink → Option Sink
output_callback (status, sample) s =
    if is_zero status
    then elim sample [
      | none ↦ some s
      | some buffer ↦ or_panic (convert buffer s.repeat_headers) (λ r. some (store r s))
    ]
    else some (record s { error = first_error s.error status })

unfoldable pub callbacks : List Call → Sink → Option Sink
callbacks [] s = some s
callbacks (c ∷ cs) s = or_panic (output_callback c s) (callbacks cs)

-- A frame's turn: the error of filling the pixel buffer, if it failed, the statuses of the submission and of the flush, and the
-- callbacks that have come by then.
pub record Turn : Type 0 where
  pub failed_fill : Option EncodeError
  pub submitted : ℤ
  pub calls : List Call
  pub flushed : ℤ

abbrev pub Encoded : Type 0
Encoded = Result (Option AccessUnit) EncodeError

-- What the flush leaves is taken.
abbrev pub take_result : Sink → Sink × Encoded
take_result s = elim s.error [
  | some status ↦ (record s { error = none }, err (video_toolbox status))
  | none ↦ (record s { au = none }, ok s.au)
]

abbrev pub submit : Turn → Sink → Option (Sink × Encoded)
submit t s =
    if is_zero t.submitted
    then or_panic (callbacks t.calls s) (λ s'.
      if is_zero t.flushed then some (take_result s') else some (s', err (video_toolbox t.flushed)))
    else some (s, err (video_toolbox t.submitted))

unfoldable pub encode_i420 : Turn → Sink → Option (Sink × Encoded)
encode_i420 t s = elim t.failed_fill [ some e ↦ some (s, err e) | none ↦ submit t s ]
