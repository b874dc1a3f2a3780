-- ===== src/Config/Streams.antt =====
-- loomd/src/main.rs: the streams that the host resolves are well numbered, which the session and
-- the driver rely on.
use loom_host.Base.{
  ℕ, suc, ◌+◌, ◌^◌, ◌<◌, ◌==◌, if◌then◌else◌, ◌≡◌, refl, ap, sym, subst, ◌∙◌, arith,
}
use loom_host.Base.{Bool, true, Bool-cases, Option, some, Option-cases, inl, inr}
use loom_host.Base.{List, [], ◌∷◌, length, find, ok, Result-cases}
use loom_host.Base.Text.{same, pieces, comma, trim, parse_u32}
use loom_host.Control.Codes.{ascii}
use loom_host.Session.{MediaParams}
use loom_host.Config.{
  StreamSpec, DisplayInfo, Args, base_params, specs, select, chosen, fan_out, resolve_streams,
  main_spec, is_sck,
}

-- Stream ids from the list on: 0 for the first, and then 2, 3, …
abbrev pub Numbered : ℕ → List StreamSpec → Type 0
Numbered i [] = Unit {0}
Numbered i (s ∷ ss) = (s.stream_id ≡ (if i == 0 then 0 else i + 1)) × Numbered (i + 1) ss

specs-Numbered :
    (base : MediaParams) (i : ℕ) (ds : List DisplayInfo)
    → i + length ds < 2 ^ 16
    → Numbered i (specs base i ds)
unfolding specs
specs-Numbered base i [] h = tt
specs-Numbered base i (d ∷ ds) h = (ground arith, specs-Numbered base (i + 1) ds (omega arith))

-- Each stream shows its display, at the display's size and place.
abbrev pub Shows : List DisplayInfo → List StreamSpec → Type 0
Shows [] [] = Unit {0}
Shows [] (s ∷ ss) = ⊥
Shows (d ∷ ds) [] = ⊥
Shows (d ∷ ds) (s ∷ ss) =
    (s.display ≡ some d.id)
    × (s.params.width ≡ d.width)
    × (s.params.height ≡ d.height)
    × (s.x ≡ d.x)
    × (s.y ≡ d.y)
    × Shows ds ss

specs-Shows : (base : MediaParams) (i : ℕ) (ds : List DisplayInfo) → Shows ds (specs base i ds)
unfolding specs
specs-Shows base i [] = tt
specs-Shows base i (d ∷ ds) = (refl, refl, refl, refl, refl, specs-Shows base (i + 1) ds)

length-specs :
    (base : MediaParams) (i : ℕ) (ds : List DisplayInfo) → length (specs base i ds) ≡ length ds
unfolding specs
length-specs base i [] = refl
length-specs base i (d ∷ ds) = ap suc (length-specs base (i + 1) ds)

-- A token names a display that is connected.
abbrev pub Names : List DisplayInfo → List ℕ → DisplayInfo → Type 0
Names available tok d =
    (parse_u32 (trim tok) ≡ some d.id)
    × (find (λ (e : DisplayInfo). e.id == d.id) available ≡ some d)

abbrev pub AllName : List DisplayInfo → List (List ℕ) → List DisplayInfo → Type 0
AllName available [] [] = Unit {0}
AllName available [] (d ∷ ds) = ⊥
AllName available (tok ∷ toks) [] = ⊥
AllName available (tok ∷ toks) (d ∷ ds) = Names available tok d × AllName available toks ds

found_id :
    (id : ℕ) (available : List DisplayInfo) (d : DisplayInfo)
    → find (λ (e : DisplayInfo). e.id == id) available ≡ some d
    → d.id ≡ id
found_id id [] d h = cc
found_id id (e ∷ es) d h = elim (Bool-cases (e.id == id)) [
  | inl y ↦ ground arith
  | inr n ↦ found_id id es d (rw (find, n) at h)
]

select-AllName :
    (available : List DisplayInfo) (toks : List (List ℕ)) (ds : List DisplayInfo)
    → select available toks ≡ ok ds
    → AllName available toks ds
unfolding select
select-AllName available [] [] h = tt
select-AllName available [] (d ∷ ds) h = cc
select-AllName available (tok ∷ toks) ds h = elim (Option-cases (parse_u32 (trim tok))) [
  | inl e ↦ cc
  | inr (id, e) ↦ elim (Option-cases (find (λ (d : DisplayInfo). d.id == id) available)) [
    | inl n ↦ cc
    | inr (d, f) ↦ elim (Result-cases (select available toks)) [
      | inl (rest, r) ↦
          let out : ds ≡ d ∷ rest = ground arith in
          let same_id = found_id id available d f in
          subst (AllName available (tok ∷ toks)) (sym out) (
            (
              (e ∙ ap some (sym same_id)),
              subst (λ k. find (λ (x : DisplayInfo). x.id == k) available ≡ some d) (sym same_id) f,
            ),
            select-AllName available toks rest r,
          )
      | inr (why, r) ↦ cc
    ]
  ]
]

-- How `--displays` chose `ds` of the displays that the capture lists: all of them, or those that
-- its tokens name, in their order.
abbrev pub Picks : List DisplayInfo → List ℕ → List DisplayInfo → Type 0
Picks available displays ds =
    if same displays (ascii "all")
    then ds ≡ available
    else AllName available (pieces comma displays) ds

chosen-Picks :
    (available : List DisplayInfo) (displays : List ℕ) (ds : List DisplayInfo)
    → chosen available displays ≡ ok ds
    → Picks available displays ds
unfolding chosen
chosen-Picks available displays ds h = elim (Bool-cases (same displays (ascii "all"))) [
  | inl all ↦ rw all (let k = rw all at h in cc)
  | inr list ↦ rw list (select-AllName available (pieces comma displays) ds (rw list at h))
]

-- What the streams of a run are: the one of the arguments, or, in a macOS build over
-- ScreenCaptureKit, one for each display that was picked.
abbrev pub Resolved : Bool → Option (List DisplayInfo) → Args → List StreamSpec → Type 0
Resolved macos listed a ss =
    if same a.displays (ascii "main")
    then ss ≡ main_spec a ∷ []
    else (macos ≡ true)
      × (is_sck a.source ≡ true)
      × ((available : List DisplayInfo) × (ds : List DisplayInfo) × (listed ≡ some available)
          × Picks available a.displays ds
          × Shows ds ss)

-- A fan-out gives the streams of the displays picked, of which there is one at least.
fan_out_lem :
    (listed : Option (List DisplayInfo)) (a : Args) (ss : List StreamSpec)
    → fan_out listed a ≡ ok ss
    → (is_sck a.source ≡ true)
      × ((available : List DisplayInfo) × (d : DisplayInfo) × (ds : List DisplayInfo) × (listed
            ≡ some available)
          × Picks available a.displays (d ∷ ds)
          × (ss ≡ specs (base_params a) 0 (d ∷ ds)))
unfolding fan_out
fan_out_lem listed a ss h = elim (Bool-cases (is_sck a.source)) [
  | inr other ↦ cc
  | inl source ↦ elim (Option-cases listed) [
    | inl e ↦ ground arith
    | inr (available, e) ↦ elim (Result-cases (chosen available a.displays)) [
      | inr (why, c) ↦ ground arith
      | inl ([], c) ↦ ground arith
      | inl (d ∷ ds, c) ↦ (
        source,
        (available, d, ds, e, chosen-Picks available a.displays (d ∷ ds) c, ground arith),
      )
    ]
  ]
]

-- The streams of the command line are never none. They are the one that `--displays main` asks
-- for, or one for each display picked, with the display's size and place, in the order of the
-- displays; and they are numbered 0, 2, 3, … as long as there are fewer than 2^16.
pub resolve_streams-Resolved :
    (macos : Bool) (listed : Option (List DisplayInfo)) (a : Args) (ss : List StreamSpec)
    → resolve_streams macos listed a ≡ ok ss
    → (0 < length ss) × Resolved macos listed a ss × (length ss < 2 ^ 16 → Numbered 0 ss)
unfolding resolve_streams
resolve_streams-Resolved macos listed a ss h = elim (Bool-cases (same a.displays (ascii "main"))) [
  | inl m ↦
      let one : ss ≡ main_spec a ∷ [] = let k = rw m at h in cc in
      rw m (rw one (omega arith), one, λ few. rw one (refl, tt))
  | inr other ↦ elim (Bool-cases macos) [
    | inr off ↦ let k = rw (other, off) at h in cc
    | inl on ↦
        let (source, (available, d, ds, e, picks, out)) =
          fan_out_lem listed a ss (rw (other, on) at h) in
        let base = base_params a in
        let count : length ss ≡ suc (length ds) = rw out (length-specs base 0 (d ∷ ds)) in
        rw other (
          omega (arith, count),
          (on, source, (available, d ∷ ds, e, picks, rw out (specs-Shows base 0 (d ∷ ds)))),
          λ few. rw out (specs-Numbered base 0 (d ∷ ds) (omega (arith, count))),
        )
  ]
]
