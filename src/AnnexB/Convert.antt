-- ===== src/AnnexB/Convert.antt =====
-- loom-encode/src/annexb.rs: `append` converts exactly the well-formed access units.
use loom_host.Base.{ℕ, zero, suc, ◌+◌, ◌≤◌, ◌≡◌, refl, ap, ap₂, sym, ◌∙◌, subst, arith, ltb, ◌==◌}
use loom_host.Base.{Bool, true, false, ◌||◌, Result-cases, inl, inr, some, Result, ok, err}
use loom_host.Base.{
  List, [], ◌∷◌, ◌++◌, length, get_or, take, drop, length-append, length-take, take-append,
  drop-append, take-append-drop, append_assoc, append-nil,
}
use loom_host.Base.{All, All-append_inv, any, ◌%◌, ◌^◌}
use loom_host.Base.Bytes.{IsByte}
use loom_host.AnnexB.{
  start_code, BitstreamError, prefix_loop, is_idr, next_unit, append_loop, append,
}
use loom_host.AnnexB.Units.{
  be_value, prefix_loop-be_value, any-is_idr, Units, done, unit, annex_b, has_idr,
}

-- The front unit of a source is found.
next_unit-unit :
    (size : ℕ) (prefix nal src : List ℕ)
    → length prefix ≡ size
    → prefix_loop 0 prefix ≡ length nal
    → 1 ≤ length nal
    → next_unit size (prefix ++ (nal ++ src)) ≡ ok (nal, src)
unfolding next_unit
next_unit-unit size prefix nal src n len full =
    let whole = prefix ++ (nal ++ src) in
    let front : take size whole ≡ prefix =
      ap (λ k. take k whole) (sym n) ∙ take-append prefix (nal ++ src) in
    let back : drop size whole ≡ nal ++ src =
      ap (λ k. drop k whole) (sym n) ∙ drop-append prefix (nal ++ src) in
    let long : ltb (length whole) size ≡ false =
      ground (arith, length-append prefix (nal ++ src)) in
    let fits : ltb (length (nal ++ src)) (length nal) ≡ false =
      ground (arith, length-append nal src) in
    let some_ : (length nal == 0) ≡ false = ground arith in
    rw (front, back, long, len, fits, some_)
      (ap₂ (λ a b. ok (a, b)) (take-append nal src) (drop-append nal src))

-- What is found is a unit.
next_unit_sound :
    (size : ℕ) (rest nal after : List ℕ)
    → next_unit size rest ≡ ok (nal, after)
    → (rest ≡ take size rest ++ (nal ++ after))
      × (length (take size rest) ≡ size)
      × (prefix_loop 0 (take size rest) ≡ length nal)
      × (1 ≤ length nal)
unfolding next_unit
next_unit_sound size rest nal after e =
    let len = prefix_loop 0 (take size rest) in
    grind (
      arith,
      take-append-drop size rest,
      take-append-drop len (drop size rest),
      length-take size rest,
      length-take len (drop size rest),
    )

-- The test as the code makes it, on all units.
abbrev coded : List (List ℕ) → Bool
coded nals = any (λ nal. is_idr (get_or nal 0 0)) nals

or_assoc : (a b c : Bool) → ((a || b) || c) ≡ (a || (b || c))
or_assoc true b c = refl
or_assoc false b c = refl

-- A prefix of bytes is read as the 64-bit number that it is.
prefix_lem : (prefix : List ℕ) → All IsByte prefix → prefix_loop 0 prefix ≡ be_value prefix % 2 ^ 64
prefix_lem prefix h = omega (arith, prefix_loop-be_value 0 prefix h (omega arith))

module _ (size : ℕ) where
  -- What follows a unit is shorter.
  next_unit_shorter :
      (rest nal after : List ℕ)
      → next_unit size rest ≡ ok (nal, after)
      → length after + 1 ≤ length rest
  next_unit_shorter rest nal after e =
      let (split, n, len, full) = next_unit_sound size rest nal after e in
      omega (
        arith,
        ap length split,
        length-append (take size rest) (nal ++ after),
        length-append nal after,
      )

  -- One round.
  append_loop_step :
      (fuel : ℕ) (rest nal after out : List ℕ) (key : Bool)
      → next_unit size rest ≡ ok (nal, after)
      → append_loop (suc fuel) size rest out key
        ≡ append_loop fuel size after (out ++ (start_code ++ nal)) (key || is_idr (get_or nal 0 0))
  unfolding append_loop
  append_loop_step fuel [] nal after out key e =
      absurd (omega (arith, next_unit_shorter [] nal after e))
  append_loop_step fuel (b ∷ bs) nal after out key e = rw (append_loop, e) refl

  -- With fuel for its length, a well-formed source is converted.
  append_loop-Units :
      (fuel : ℕ) {src : List ℕ} {nals : List (List ℕ)} (out : List ℕ) (key : Bool)
      → Units size src nals
      → All IsByte src
      → length src ≤ fuel
      → append_loop fuel size src out key ≡ some (out ++ annex_b nals, ok (key || coded nals))
  unfolding append_loop
  append_loop-Units fuel out true done hb h = ap (λ o. some (o, ok true)) (sym (append-nil out))
  append_loop-Units fuel out false done hb h = ap (λ o. some (o, ok false)) (sym (append-nil out))
  append_loop-Units zero out key (unit prefix nal {src} {nals} n len full u) hb h =
      absurd (omega (arith, length-append prefix (nal ++ src), length-append nal src))
  append_loop-Units (suc fuel) out key (unit prefix nal {src} {nals} n len full u) hb h =
      let (front, rest) = All-append_inv IsByte prefix (nal ++ src) hb in
      let e = next_unit-unit size prefix nal src n (prefix_lem prefix front ∙ len) full in
      append_loop_step fuel (prefix ++ (nal ++ src)) nal src out key e
      ∙ append_loop-Units fuel (out ++ (start_code ++ nal)) (key || is_idr (get_or nal 0 0)) u
          (All-append_inv IsByte nal src rest).1
          (omega (arith, length-append prefix (nal ++ src), length-append nal src))
      ∙ ap₂ (λ o k. some (o, ok k)) (append_assoc out (start_code ++ nal) (annex_b nals))
          (or_assoc key (is_idr (get_or nal 0 0)) (coded nals))

  -- A conversion that succeeds is of a well-formed source.
  append_loop_sound :
      (fuel : ℕ) (src out out' : List ℕ) (key key' : Bool)
      → All IsByte src
      → append_loop fuel size src out key ≡ some (out', ok key')
      → (nals : List (List ℕ)) × Units size src nals
        × (out' ≡ out ++ annex_b nals)
        × (key' ≡ (key || coded nals))
  unfolding append_loop
  append_loop_sound fuel [] out out' key key' hb e =
      ([], done, ground (arith, append-nil out), ground arith)
  append_loop_sound zero (b ∷ bs) out out' key key' hb e = absurd (ground arith)
  append_loop_sound (suc fuel) (b ∷ bs) out out' key key' hb e =
      elim (Result-cases (next_unit size (b ∷ bs))) [
        | inr (x, q) ↦ absurd (ground arith)
        | inl ((nal, after), q) ↦
            let (split, n, len, full) = next_unit_sound size (b ∷ bs) nal after q in
            let (front, rest) =
              All-append_inv IsByte (take size (b ∷ bs)) (nal ++ after)
                (subst (All IsByte) split hb) in
            let (nals, u, o, k) =
              append_loop_sound fuel after (out ++ (start_code ++ nal)) out'
                (key || is_idr (get_or nal 0 0)) key' (All-append_inv IsByte nal after rest).1
                (sym (append_loop_step fuel (b ∷ bs) nal after out key q) ∙ e) in
            (
              nal ∷ nals,
              subst (λ xs. Units size xs (nal ∷ nals)) (sym split)
                  (unit (take size (b ∷ bs)) nal n
                    (sym (prefix_lem (take size (b ∷ bs)) front) ∙ len) full u),
              o ∙ append_assoc out (start_code ++ nal) (annex_b nals),
              k ∙ or_assoc key (is_idr (get_or nal 0 0)) (coded nals),
            )
      ]

  append_loop_ends :
      (fuel : ℕ) (src out : List ℕ) (key : Bool)
      → length src ≤ fuel
      → (r : List ℕ × Result Bool BitstreamError) × (append_loop fuel size src out key ≡ some r)
  unfolding append_loop
  append_loop_ends fuel [] out key h = ((out, ok key), refl)
  append_loop_ends zero (b ∷ bs) out key h = absurd (omega arith)
  append_loop_ends (suc fuel) (b ∷ bs) out key h = elim (Result-cases (next_unit size (b ∷ bs))) [
    | inr (x, q) ↦ ((out, err x), rw (append_loop, q) refl)
    | inl ((nal, after), q) ↦
        let (r, e) =
          append_loop_ends fuel after (out ++ (start_code ++ nal)) (key || is_idr (get_or nal 0 0))
            (omega (arith, next_unit_shorter (b ∷ bs) nal after q)) in
        (r, append_loop_step fuel (b ∷ bs) nal after out key q ∙ e)
  ]

-- Every access unit, well-formed or not, and whatever the size of its prefixes, is converted or
-- refused: the loop ends.
pub append_ends :
    (src : List ℕ) (size : ℕ) (out : List ℕ)
    → (r : List ℕ × Result Bool BitstreamError) × (append src size out ≡ some r)
unfolding append
append_ends src size out = append_loop_ends size (length src) src out false (omega arith)

-- A well-formed access unit is converted: its units are appended in Annex-B, in order and each
-- after a start code, and the result says whether one of them is an IDR slice, by the type in its
-- first byte; for a source of bytes.
pub append-Units :
    (size : ℕ) (out : List ℕ) {src : List ℕ} {nals : List (List ℕ)}
    → Units size src nals
    → All IsByte src
    → append src size out ≡ some (out ++ annex_b nals, ok (has_idr nals))
unfolding append
append-Units size out {src} {nals} u h =
    append_loop-Units size (length src) out false u h (omega arith)
    ∙ ap (λ k. some (out ++ annex_b nals, ok k)) (any-is_idr u h)

-- What is converted without an error is a well-formed access unit, if it is a source of bytes, and
-- its conversion is that of its units.
pub append_sound :
    (src : List ℕ) (size : ℕ) (out out' : List ℕ) (keyframe : Bool)
    → All IsByte src
    → append src size out ≡ some (out', ok keyframe)
    → (nals : List (List ℕ)) × Units size src nals
      × (out' ≡ out ++ annex_b nals)
      × (keyframe ≡ has_idr nals)
unfolding append
append_sound src size out out' keyframe h e =
    let (nals, u, o, k) = append_loop_sound size (length src) src out out' false keyframe h e in
    (nals, u, o, k ∙ any-is_idr u h)
