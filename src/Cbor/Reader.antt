-- ===== src/Cbor/Reader.antt =====
-- A reader of definite-length CBOR written from RFC 8949 §3, which loom-proto/src/cbor.rs is
-- measured against. It stands in the place that the ciborium crate has in the program.
use loom_host.Base.{ℕ, zero, suc, ◌==◌, ltb, if◌then◌else◌, true, false, Option, none, some}
use loom_host.Base.{List, ◌∷◌, length, take, drop, get_or}
use loom_host.Base.Int.{pos, negsuc}
use loom_host.Base.Bytes.{from_be16, from_be32, from_be64}
use loom_host.Cbor.{FloatOps}
use loom_host.Cbor.Head.{read_head}
use loom_host.Cbor.Values.{
  Value, Items, Entries, int, bytes, text, array, dict, bool, float, null, nil, cons, end, entry,
}

abbrev pub Read : Type 0 → Type 0
Read A = Option (A × List ℕ)

-- `arg` bytes.
abbrev pub read_bytes : ℕ → List ℕ → Read (List ℕ)
read_bytes arg bs = if ltb (length bs) arg then none else some (take arg bs, drop arg bs)

module _ (f : FloatOps) where
  open f use {from_f32, from_f16}

  -- The floats of 16, 32 and 64 bits.
  abbrev pub read_f16 : List ℕ → Read Value
  read_f16 (a ∷ b ∷ bs) = some (float (from_f32 (from_f16 (from_be16 a b))), bs)
  read_f16 _ = none

  abbrev pub read_f32 : List ℕ → Read Value
  read_f32 (a ∷ b ∷ c ∷ d ∷ bs) = some (float (from_f32 (from_be32 a b c d)), bs)
  read_f32 _ = none

  abbrev pub read_f64 : List ℕ → Read Value
  read_f64 (a ∷ b ∷ c ∷ d ∷ e ∷ g ∷ h ∷ i ∷ bs) = some (float (from_be64 a b c d e g h i), bs)
  read_f64 _ = none

  -- Major type 7, by the initial byte.
  unfoldable pub read_simple : ℕ → List ℕ → Read Value
  read_simple b bs =
      if b == 0xf4
      then some (bool false, bs)
      else if b == 0xf5
      then some (bool true, bs)
      else if b == 0xf6
      then some (null, bs)
      else if b == 0xf9
      then read_f16 bs
      else if b == 0xfa
      then read_f32 bs
      else if b == 0xfb
      then read_f64 bs
      else none

  abbrev pub then_value : {A : Type 0} → Read A → (A → Value) → Read Value
  then_value none make = none
  then_value (some (a, rest)) make = some (make a, rest)

  -- The value whose head is read, given the readers of its parts.
  unfoldable pub read_body :
      (ℕ → List ℕ → Read Items) → (ℕ → List ℕ → Read Entries) → ℕ → ℕ → List ℕ → List ℕ → Read Value
  read_body items entries major arg rest bs =
      if major == 0
      then some (int (pos arg), rest)
      else if major == 1
      then some (int (negsuc arg), rest)
      else if major == 2
      then then_value (read_bytes arg rest) bytes
      else if major == 3
      then then_value (read_bytes arg rest) text
      else if major == 4
      then then_value (items arg rest) array
      else if major == 5
      then then_value (entries arg rest) dict
      else read_simple (get_or bs 0 0) (drop 1 bs)

  unfoldable mutual
    -- One value, with fuel for its depth and length.
    pub read_value : ℕ → List ℕ → Read Value
    read_value zero bs = none
    read_value (suc n) bs = elim (read_head bs) [
      | none ↦ none
      | some (major, arg, rest) ↦
          read_body (λ k r. read_items n k r) (λ k r. read_entries n k r) major arg rest bs
    ]

    pub read_items : ℕ → ℕ → List ℕ → Read Items
    read_items zero zero bs = some (nil, bs)
    read_items zero (suc k) bs = none
    read_items (suc n) zero bs = some (nil, bs)
    read_items (suc n) (suc k) bs = elim (read_value n bs) [
      | none ↦ none
      | some (v, bs') ↦ elim (read_items n k bs') [
        | none ↦ none
        | some (vs, rest) ↦ some (cons v vs, rest)
      ]
    ]

    pub read_entries : ℕ → ℕ → List ℕ → Read Entries
    read_entries zero zero bs = some (end, bs)
    read_entries zero (suc k) bs = none
    read_entries (suc n) zero bs = some (end, bs)
    read_entries (suc n) (suc k) bs = elim (read_value n bs) [
      | none ↦ none
      | some (key, bs') ↦ elim (read_value n bs') [
        | none ↦ none
        | some (v, bs'') ↦ elim (read_entries n k bs'') [
          | none ↦ none
          | some (es, rest) ↦ some (entry key v es, rest)
        ]
      ]
    ]
