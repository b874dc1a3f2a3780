-- ===== src/AnnexB/Tests.antt =====
-- loom-encode/src/annexb.rs: the crate's own test cases, and the theorems at concrete inputs.
use loom_host.Base.{ℕ, ◌≡◌, refl, arith, Bool, true, some, Result, ok, err, List, [], ◌∷◌, ◌++◌}
use loom_host.Base.{All}
use loom_host.Base.Bytes.{IsByte}
use loom_host.AnnexB.{
  BitstreamError, truncated_prefix, length_exceeds, zero_length, prefix_loop, is_idr, next_unit,
  append_loop, append,
}
use loom_host.AnnexB.Units.{Units, done, unit, annex_b, has_idr, be_prefix, prefix_loop-be_prefix}
use loom_host.AnnexB.Convert.{append_ends, append-Units, append_sound}

-- `walks_every_nal_and_flags_idr`
abbrev two_nals : List ℕ
two_nals = 0 ∷ 0 ∷ 0 ∷ 2 ∷ 0x4e ∷ 1 ∷ 0 ∷ 0 ∷ 0 ∷ 2 ∷ 0x26 ∷ 1 ∷ []

abbrev two_converted : List ℕ
two_converted = 0 ∷ 0 ∷ 0 ∷ 1 ∷ 0x4e ∷ 1 ∷ 0 ∷ 0 ∷ 0 ∷ 1 ∷ 0x26 ∷ 1 ∷ []

walks_every_nal : append two_nals 4 [] ≡ some (two_converted, ok true)
unfolding append append_loop next_unit prefix_loop is_idr
walks_every_nal = refl

-- `honors_a_non_four_byte_length_size`
one_byte_prefix : append (2 ∷ 0x26 ∷ 1 ∷ []) 1 [] ≡ some (0 ∷ 0 ∷ 0 ∷ 1 ∷ 0x26 ∷ 1 ∷ [], ok true)
unfolding append append_loop next_unit prefix_loop is_idr
one_byte_prefix = refl

-- The three errors.
refusals :
    (append (0 ∷ 0 ∷ 0 ∷ 9 ∷ 0x26 ∷ 1 ∷ []) 4 [] ≡ some ([], err length_exceeds))
    × (append (0 ∷ 0 ∷ []) 4 [] ≡ some ([], err truncated_prefix))
    × (append (0 ∷ 0 ∷ 0 ∷ 0 ∷ []) 4 [] ≡ some ([], err zero_length))
unfolding append append_loop next_unit prefix_loop is_idr
refusals = (refl, refl, refl)

two_nals-Units : Units 4 two_nals ((0x4e ∷ 1 ∷ []) ∷ (0x26 ∷ 1 ∷ []) ∷ [])
unfolding prefix_loop
two_nals-Units =
    unit (0 ∷ 0 ∷ 0 ∷ 2 ∷ []) (0x4e ∷ 1 ∷ []) refl refl (omega arith)
      (unit (0 ∷ 0 ∷ 0 ∷ 2 ∷ []) (0x26 ∷ 1 ∷ []) refl refl (omega arith) done)

two_nals_bytes : All IsByte two_nals
two_nals_bytes = ground arith

append-Units_example :
    append two_nals 4 (7 ∷ [])
    ≡ some (
      (7 ∷ []) ++ annex_b ((0x4e ∷ 1 ∷ []) ∷ (0x26 ∷ 1 ∷ []) ∷ []),
      ok (has_idr ((0x4e ∷ 1 ∷ []) ∷ (0x26 ∷ 1 ∷ []) ∷ [])),
    )
append-Units_example = append-Units 4 (7 ∷ []) two_nals-Units two_nals_bytes

append_sound_example :
    (nals : List (List ℕ)) × Units 4 two_nals nals
    × (two_converted ≡ [] ++ annex_b nals)
    × (true ≡ has_idr nals)
append_sound_example = append_sound two_nals 4 [] two_converted true two_nals_bytes walks_every_nal

append_ends_case :
    (r : List ℕ × Result Bool BitstreamError) × (append (0 ∷ 0 ∷ 9 ∷ []) 0 [] ≡ some r)
append_ends_case = append_ends (0 ∷ 0 ∷ 9 ∷ []) 0 []

prefix_loop-be_prefix_case : prefix_loop 0 (be_prefix 2 500) ≡ 500
prefix_loop-be_prefix_case = prefix_loop-be_prefix 2 500 (omega arith) (omega arith)
