-- ===== src/Base/BTreeMap.antt =====
-- `BTreeMap` with numbers for keys: entries in ascending order of their keys.
use Prim.Native.Nat.{ℕ, suc, ◌≤◌, ◌<◌}
use mathlib.Core.Path.{◌≡◌, refl, sym, subst₂}
use mathlib.Core.Logic.{inl, inr}
use mathlib.Core.Option.{Option, none, some}
use mathlib.Core.List.{List, [], ◌∷◌}
use native.Mathlib.Omega.{arith}
use loom_host.Base.Tests.{ltb, ◌==◌, ==_iff, Bool-cases, if◌then◌else◌}
use loom_host.Base.Lists.{length}

abbrev pub BTreeMap {ℓ} : Type ℓ → Type ℓ
BTreeMap V = List (ℕ × V)

module _ {ℓ} {V : Type ℓ} where
  unfoldable pub get : ℕ → BTreeMap V → Option V
  get k [] = none
  get k ((j, v) ∷ m) = if k == j then some v else get k m

  unfoldable pub insert : ℕ → V → BTreeMap V → BTreeMap V
  insert k v [] = (k, v) ∷ []
  insert k v ((j, w) ∷ m) =
      if ltb k j then (k, v) ∷ (j, w) ∷ m else if k == j then (k, v) ∷ m else (j, w) ∷ insert k v m

  unfoldable pub remove : ℕ → BTreeMap V → BTreeMap V
  remove k [] = []
  remove k ((j, w) ∷ m) = if k == j then m else (j, w) ∷ remove k m

  -- `keys().next()`
  abbrev pub first_key : BTreeMap V → Option ℕ
  first_key [] = none
  first_key ((j, w) ∷ m) = some j

  abbrev pub keys : BTreeMap V → List ℕ
  keys [] = []
  keys ((j, w) ∷ m) = j ∷ keys m

  -- Every key is above `lo`, and the keys ascend.
  abbrev pub Ascends : ℕ → BTreeMap V → Type 0
  Ascends lo [] = Unit
  Ascends lo ((j, w) ∷ m) = (lo ≤ j) × Ascends (suc j) m

  abbrev pub IsMap : BTreeMap V → Type 0
  IsMap m = Ascends 0 m

module _ {ℓ} {V : Type ℓ} where
  Ascends-le : (a b : ℕ) (m : BTreeMap V) → a ≤ b → Ascends b m → Ascends a m
  Ascends-le a b [] h s = tt
  Ascends-le a b ((j, w) ∷ m) h s = (omega arith, s.1)

  get_below : (lo k : ℕ) (m : BTreeMap V) → k < lo → Ascends lo m → get k m ≡ none
  unfolding get
  get_below lo k [] h s = refl
  get_below lo k ((j, w) ∷ m) h s = ground (arith, get_below (suc j) k m)

  pub get-insert :
      (k j lo : ℕ) (v : V) (m : BTreeMap V)
      → Ascends lo m
      → get j (insert k v m) ≡ (if j == k then some v else get j m)
  unfolding get insert
  get-insert k j lo v [] s = refl
  get-insert k j lo v ((i, w) ∷ m) s = ground (arith, get-insert k j (suc i) v m)

  pub get-remove :
      (k j lo : ℕ) (m : BTreeMap V)
      → Ascends lo m
      → get j (remove k m) ≡ (if j == k then none else get j m)
  unfolding get remove
  get-remove k j lo [] s = ground arith
  get-remove k j lo ((i, w) ∷ m) s = ground (arith, get-remove k j (suc i) m, get_below (suc i) j m)

  pub remove_first : (k : ℕ) (v : V) (m : BTreeMap V) → remove k ((k, v) ∷ m) ≡ m
  unfolding remove
  remove_first k v m = ground arith

  remove_below : (lo k : ℕ) (m : BTreeMap V) → k < lo → Ascends lo m → remove k m ≡ m
  unfolding remove
  remove_below lo k [] h s = refl
  remove_below lo k ((j, w) ∷ m) h s = ground (arith, remove_below (suc j) k m)

  -- Removing the key just written forgets the write.
  pub remove-insert :
      (k lo : ℕ) (v : V) (m : BTreeMap V) → Ascends lo m → remove k (insert k v m) ≡ remove k m
  unfolding remove insert
  remove-insert k lo v [] s = ground arith
  remove-insert k lo v ((j, w) ∷ m) s =
      ground (arith, remove-insert k (suc j) v m, remove_below (suc j) k m)

  pub insert-Ascends :
      (lo k : ℕ) (v : V) (m : BTreeMap V) → lo ≤ k → Ascends lo m → Ascends lo (insert k v m)
  unfolding insert
  insert-Ascends lo k v [] h s = (h, tt)
  insert-Ascends lo k v ((i, w) ∷ m) h s = ground (arith, insert-Ascends (suc i) k v m)

  pub remove-Ascends : (lo k : ℕ) (m : BTreeMap V) → Ascends lo m → Ascends lo (remove k m)
  unfolding remove
  remove-Ascends lo k [] s = tt
  remove-Ascends lo k ((i, w) ∷ m) s =
      ground (arith, remove-Ascends (suc i) k m, Ascends-le lo (suc i) m)

  pub length-insert : (k : ℕ) (v : V) (m : BTreeMap V) → length (insert k v m) ≤ suc (length m)
  unfolding insert
  length-insert k v [] = omega arith
  length-insert k v ((i, w) ∷ m) = ground (arith, length-insert k v m)

  -- Writing at a key that is there keeps the number of entries.
  pub length-insert_old :
      (k lo : ℕ) (v : V) (m : BTreeMap V) {w : V}
      → Ascends lo m
      → get k m ≡ some w
      → length (insert k v m) ≡ length m
  unfolding insert get
  length-insert_old k lo v [] s e = cc
  length-insert_old k lo v ((i, u) ∷ m) {w} s e =
      ground (arith, length-insert_old k (suc i) v m {w = w}, get_below (suc i) k m)

  pub length-remove :
      (k : ℕ) (m : BTreeMap V) {w : V} → get k m ≡ some w → suc (length (remove k m)) ≡ length m
  unfolding remove get
  length-remove k [] e = cc
  length-remove k ((i, u) ∷ m) {w} e = ground (arith, length-remove k m {w = w})

  pub length-remove_le : (k : ℕ) (m : BTreeMap V) → length (remove k m) ≤ length m
  unfolding remove
  length-remove_le k [] = omega arith
  length-remove_le k ((i, u) ∷ m) = ground (arith, length-remove_le k m)

module _ {ℓ κ} {V : Type ℓ} (P : ℕ → V → Type κ) where
  -- A predicate on every entry.
  abbrev pub Every : BTreeMap V → Type κ
  Every [] = Unit
  Every ((j, w) ∷ m) = P j w × Every m

  pub Every-get : (k : ℕ) (m : BTreeMap V) {v : V} → Every m → get k m ≡ some v → P k v
  unfolding get
  Every-get k [] h e = cc
  Every-get k ((j, w) ∷ m) {v} h e = elim (Bool-cases (k == j)) [
    | inl same ↦ let p : w ≡ v = ground arith in subst₂ P (sym ((==_iff k j).0 same)) p h.0
    | inr other ↦ Every-get k m h.1 (rw other at e)
  ]

  pub Every-insert : (k : ℕ) (v : V) (m : BTreeMap V) → P k v → Every m → Every (insert k v m)
  unfolding insert
  Every-insert k v [] p h = (p, tt)
  Every-insert k v ((j, w) ∷ m) p h = ground (arith, Every-insert k v m)

  pub Every-remove : (k : ℕ) (m : BTreeMap V) → Every m → Every (remove k m)
  unfolding remove
  Every-remove k [] h = tt
  Every-remove k ((j, w) ∷ m) h = ground (arith, Every-remove k m)

  -- A write needs the predicate of the other entries only.
  pub Every-insert_removed :
      (k lo : ℕ) (v : V) (m : BTreeMap V)
      → Ascends lo m
      → P k v
      → Every (remove k m)
      → Every (insert k v m)
  unfolding insert remove
  Every-insert_removed k lo v [] s p h = (p, tt)
  Every-insert_removed k lo v ((j, w) ∷ m) s p h =
      ground (arith, Every-insert_removed k (suc j) v m, remove_below (suc j) k m)
