-- ===== src/Cbor/Text.antt =====
-- loom-proto/src/cbor.rs: what the ciborium crate is documented to read: text in UTF-8, and values that are nested no
-- deeper than its limit.
use loom_host.Base.{ℕ, zero, suc, ◌-◌, ◌<◌, ◌≡◌, leb, ◌==◌, ◌&&◌, if◌then◌else◌}
use loom_host.Base.{Bool, true, false, Option, none, some, List, [], ◌∷◌}
use loom_host.Base.{All}
use loom_host.Base.Bytes.{IsByte}
use loom_host.Cbor.Values.{bytes, Value, Items, Entries, text, array, dict, nil, cons, end, entry}

-- How many bytes a character still needs, and the range of the next one.
abbrev Pending : Type 0
Pending = ℕ × ℕ × ℕ

abbrev within : ℕ → ℕ → ℕ → Bool
within low high b = leb low b && leb b high

-- The first byte of a character, RFC 3629 §4.
abbrev lead : ℕ → Option Pending
lead b =
    if leb b 0x7f
    then some (0, 0, 0)
    else if within 0xc2 0xdf b
    then some (1, 0x80, 0xbf)
    else if b == 0xe0
    then some (2, 0xa0, 0xbf)
    else if b == 0xed
    then some (2, 0x80, 0x9f)
    else if within 0xe1 0xef b
    then some (2, 0x80, 0xbf)
    else if b == 0xf0
    then some (3, 0x90, 0xbf)
    else if within 0xf1 0xf3 b
    then some (3, 0x80, 0xbf)
    else if b == 0xf4
    then some (3, 0x80, 0x8f)
    else none

abbrev step : Pending → ℕ → Option Pending
step (zero, low, high) b = lead b
step (suc n, low, high) b = if within low high b then some (n, 0x80, 0xbf) else none

abbrev utf8_from : Option Pending → List ℕ → Bool
utf8_from none bs = false
utf8_from (some p) [] = p.0 == 0
utf8_from (some p) (b ∷ bs) = utf8_from (step p b) bs

abbrev pub is_utf8 : List ℕ → Bool
is_utf8 bs = utf8_from (some (0, 0, 0)) bs

-- Arrays and maps that are nested `depth` deep at most, with texts in UTF-8 and byte strings of bytes.
unfoldable mutual
  pub IsNested : ℕ → Value → Type 0
  IsNested depth (bytes b) = All IsByte b
  IsNested depth (text s) = is_utf8 s ≡ true
  IsNested depth (array a) = (0 < depth) × AllNested (depth - 1) a
  IsNested depth (dict m) = (0 < depth) × EveryNested (depth - 1) m
  IsNested depth _ = Unit

  pub AllNested : ℕ → Items → Type 0
  AllNested depth nil = Unit
  AllNested depth (cons v vs) = IsNested depth v × AllNested depth vs

  pub EveryNested : ℕ → Entries → Type 0
  EveryNested depth end = Unit
  EveryNested depth (entry k v es) = IsNested depth k × IsNested depth v × EveryNested depth es

-- `from_reader` reads with a recursion limit of 256.
abbrev pub recursion_limit : ℕ
recursion_limit = 256

abbrev pub IsReadable : Value → Type 0
IsReadable v = IsNested recursion_limit v
