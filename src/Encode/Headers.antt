-- ===== src/Encode/Headers.antt =====
-- loom-encode/src/videotoolbox.rs: a frame's turn yields its own access unit, and the parameter sets lead every
-- IDR.
use loom_host.Base.{ℕ, suc, ◌+◌, ◌&&◌, if◌then◌else◌, ◌≡◌, refl, ap, sym, ◌∙◌, Bool}
use loom_host.Base.{
  Bool-cases, inl, inr, Option, none, some, List, [], ◌∷◌, ◌++◌, length, append-nil, append_assoc,
  All, Result, ok, err,
}
use loom_host.Base.Grid.{or_panic}
use loom_host.Base.Int.{pos}
use loom_host.Base.Bytes.{IsByte}
use loom_host.AnnexB.{BitstreamError, start_code, append}
use loom_host.AnnexB.Units.{Units, annex_b, has_idr}
use loom_host.AnnexB.Convert.{append-Units}
use loom_host.Encode.{
  set_of, with_sets, is_zero, as_usize, EncodeError, video_toolbox, converted, convert_bytes,
  Format, Sample, AccessUnit, append_sets, convert, Sink, Call, output_callback, callbacks, Turn,
  encode_i420,
}

-- The sets that a description gives from an index on.
abbrev pub HasSets : Format → ℕ → List (List ℕ) → Type 0
HasSets format index [] = Unit
HasSets format index (set ∷ sets) =
    (format.set index ≡ (pos 0, some set)) × HasSets format (index + 1) sets

append_sets_step :
    (format : Format) (left index : ℕ) (set out : List ℕ)
    → format.set index ≡ (pos 0, some set)
    → append_sets format (suc left) index out
      ≡ append_sets format left (index + 1) (out ++ (start_code ++ set))
unfolding append_sets
append_sets_step format left index set out h =
    let one : set_of (format.set index) ≡ ok set = ap set_of h in rw (append_sets, one) refl

append_sets-annex_b :
    (format : Format) (index : ℕ) (sets : List (List ℕ)) (out : List ℕ)
    → HasSets format index sets
    → append_sets format (length sets) index out ≡ ok (out ++ annex_b sets)
unfolding append_sets
append_sets-annex_b format index [] out h = ap ok (sym (append-nil out))
append_sets-annex_b format index (set ∷ sets) out (h, hs) =
    append_sets_step format (length sets) index set out h
    ∙ (append_sets-annex_b format (index + 1) sets (out ++ (start_code ++ set)) hs
        ∙ ap ok (append_assoc out (start_code ++ set) (annex_b sets)))

-- A sample buffer with these parameter sets and these units, each after a prefix of `size` bytes.
pub record HoldsUnits (sample : Sample) (size : ℕ) (sets nals : List (List ℕ)) : Type 0 where
  pub format : Format
  pub described : sample.format ≡ some format
  pub queried : format.status ≡ pos 0
  pub prefixes : format.nal_length_size ≡ pos size
  pub counted : format.count ≡ length sets
  pub has_sets : HasSets format 0 sets
  pub src : List ℕ
  pub block : sample.block ≡ some (pos 0, some src)
  pub units : Units size src nals
  pub bytes : All IsByte src

-- A turn whose statuses are all good, and the sink between turns.
abbrev pub turn_of : List Call → Turn
turn_of calls = record { failed_fill = none; submitted = pos 0; calls = calls; flushed = pos 0 }

abbrev pub empty_sink : Bool → Sink
empty_sink repeat_headers = record { au = none; error = none; repeat_headers = repeat_headers }

-- The access unit in Annex-B, with the parameter sets before an IDR if they are to be repeated.
abbrev pub led : Bool → List (List ℕ) → List (List ℕ) → AccessUnit
led repeat_headers sets nals = record {
  keyframe = has_idr nals;
  bytes = if has_idr nals && repeat_headers then annex_b sets ++ annex_b nals else annex_b nals;
}

converted-led :
    (format : Format) (repeat_headers : Bool) (sets nals : List (List ℕ))
    → append_sets format format.count 0 [] ≡ ok (annex_b sets)
    → converted format repeat_headers (annex_b nals, ok (has_idr nals))
      ≡ ok (led repeat_headers sets nals)
converted-led format repeat_headers sets nals q =
    elim (Bool-cases (has_idr nals && repeat_headers)) [
      | inl e ↦ rw (e, with_sets, q) refl
      | inr e ↦ rw e refl
    ]

convert-led :
    (sample : Sample) (size : ℕ) (sets nals : List (List ℕ)) (repeat_headers : Bool)
    → HoldsUnits sample size sets nals
    → convert sample repeat_headers ≡ some (ok (led repeat_headers sets nals))
unfolding convert
convert-led sample size sets nals repeat_headers h =
    let f = h.format in
    let src = h.src in
    let described = h.described in
    let block = h.block in
    let k : List ℕ × Result Bool BitstreamError → Option (Result AccessUnit EncodeError) =
      λ r. some (converted f repeat_headers r) in
    let refusal : Option (Result AccessUnit EncodeError) = some (err (video_toolbox f.status)) in
    let s = append_sets-annex_b f 0 sets [] h.has_sets in
    let q : append_sets f f.count 0 [] ≡ ok (annex_b sets) =
      ap (λ n. append_sets f n 0 []) h.counted ∙ s in
    let opened : convert sample repeat_headers ≡ convert_bytes f repeat_headers src =
      rw (convert, described, block) refl in
    let bytes : convert_bytes f repeat_headers src ≡ k (annex_b nals, ok (has_idr nals)) =
      ap
        (λ st.
          if is_zero st then or_panic (append src (as_usize f.nal_length_size) []) k else refusal)
        h.queried
      ∙ ap (λ n. or_panic (append src (as_usize n) []) k) h.prefixes
      ∙ ap (λ o. or_panic o k) (append-Units size [] h.units h.bytes) in
    opened ∙ bytes ∙ ap some (converted-led f repeat_headers sets nals q)

-- An encoder whose sink is empty, as a new one's is, and a frame that is submitted, encoded into whole units and flushed: its
-- turn returns its own access unit, in Annex-B, with the parameter sets before an IDR if they are to be repeated, and
-- leaves the sink empty.
pub encode_i420-led :
    (sample : Sample) (size : ℕ) (sets nals : List (List ℕ)) (repeat_headers : Bool)
    → HoldsUnits sample size sets nals
    → encode_i420 (turn_of ((pos 0, some sample) ∷ [])) (empty_sink repeat_headers)
      ≡ some (empty_sink repeat_headers, ok (some (led repeat_headers sets nals)))
unfolding encode_i420 callbacks output_callback
encode_i420-led sample size sets nals repeat_headers h =
    let c = convert-led sample size sets nals repeat_headers h in rw c refl
