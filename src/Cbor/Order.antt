-- ===== src/Cbor/Order.antt =====
-- loom-proto/src/cbor.rs: `encode_map` sorts, and so the order of a map's entries is irrelevant.
use loom_host.Base.{ℕ, suc, ◌≡◌, ◌≢◌, refl, sym, ap, ap₂, ◌∙◌, arith, true, false}
use loom_host.Base.{Bool-cases, inl, inr, List, [], ◌∷◌, ◌++◌, ◌%◌, ◌^◌}
use mathlib.Core.List.{Perm}
use mathlib.Core.List.Perm
use loom_host.Cbor.Values.{Value, Entries, dict, entry, count_entries}
use loom_host.Cbor.{
  FloatOps, Pair, lex_le, insert_pair, sort_pairs, flatten_pairs, encode_into, encode_pairs,
  encode_head, to_canonical,
}

-- The lexicographic order is total, antisymmetric and transitive.
pub lex_le_total : (a b : List ℕ) → lex_le a b ≡ false → lex_le b a ≡ true
unfolding lex_le
lex_le_total [] b e = absurd (ground arith)
lex_le_total (x ∷ xs) [] e = refl
lex_le_total (x ∷ xs) (y ∷ ys) e = ground (arith, lex_le_total xs ys)

pub lex_le_antisym : (a b : List ℕ) → lex_le a b ≡ true → lex_le b a ≡ true → a ≡ b
unfolding lex_le
lex_le_antisym [] [] e f = refl
lex_le_antisym [] (y ∷ ys) e f = absurd (ground arith)
lex_le_antisym (x ∷ xs) [] e f = absurd (ground arith)
lex_le_antisym (x ∷ xs) (y ∷ ys) e f = ground (arith, lex_le_antisym xs ys)

pub lex_le_trans : (a b c : List ℕ) → lex_le a b ≡ true → lex_le b c ≡ true → lex_le a c ≡ true
unfolding lex_le
lex_le_trans [] b c e f = refl
lex_le_trans (x ∷ xs) [] c e f = absurd (ground arith)
lex_le_trans (x ∷ xs) (y ∷ ys) [] e f = absurd (ground arith)
lex_le_trans (x ∷ xs) (y ∷ ys) (z ∷ zs) e f = ground (arith, lex_le_trans xs ys zs)

-- Keys in ascending order.
abbrev pub Least : List ℕ → List Pair → Type 0
Least k [] = Unit
Least k (p ∷ ps) = lex_le k p.0 ≡ true

abbrev pub IsSorted : List Pair → Type 0
IsSorted [] = Unit
IsSorted (p ∷ ps) = Least p.0 ps × IsSorted ps

insert_pair-Least :
    (j : List ℕ) (p : Pair) (ps : List Pair)
    → lex_le j p.0 ≡ true
    → Least j ps
    → Least j (insert_pair p ps)
unfolding insert_pair
insert_pair-Least j p [] e l = e
insert_pair-Least j p (q ∷ ps) e l = ground arith

insert_pair-IsSorted : (p : Pair) (ps : List Pair) → IsSorted ps → IsSorted (insert_pair p ps)
unfolding insert_pair
insert_pair-IsSorted p [] h = (tt, tt)
insert_pair-IsSorted p (q ∷ ps) (l, h) = elim (Bool-cases (lex_le p.0 q.0)) [
  | inl e ↦ rw e (e, (l, h))
  | inr e ↦
      rw e (insert_pair-Least q.0 p ps (lex_le_total p.0 q.0 e) l, insert_pair-IsSorted p ps h)
]

pub sort_pairs-IsSorted : (ps : List Pair) → IsSorted (sort_pairs ps)
unfolding sort_pairs
sort_pairs-IsSorted [] = tt
sort_pairs-IsSorted (p ∷ ps) = insert_pair-IsSorted p (sort_pairs ps) (sort_pairs-IsSorted ps)

insert_pair-Perm : (p : Pair) (ps : List Pair) → Perm (insert_pair p ps) (p ∷ ps)
unfolding insert_pair
insert_pair-Perm p [] = Perm.refl (p ∷ [])
insert_pair-Perm p (q ∷ ps) = elim (Bool-cases (lex_le p.0 q.0)) [
  | inl e ↦ rw e (Perm.refl (p ∷ q ∷ ps))
  | inr e ↦ rw e (Perm.trans (Perm.cons q (insert_pair-Perm p ps)) (Perm.swap p q ps))
]

pub sort_pairs-Perm : (ps : List Pair) → Perm (sort_pairs ps) ps
unfolding sort_pairs
sort_pairs-Perm [] = Perm.refl []
sort_pairs-Perm (p ∷ ps) =
    Perm.trans (insert_pair-Perm p (sort_pairs ps)) (Perm.cons p (sort_pairs-Perm ps))

-- Two insertions at different keys commute: first with the smaller key given.
insert_pair_below :
    (p q : Pair) (ps : List Pair)
    → lex_le p.0 q.0 ≡ true
    → lex_le q.0 p.0 ≡ false
    → insert_pair p (insert_pair q ps) ≡ insert_pair q (insert_pair p ps)
unfolding insert_pair
insert_pair_below p q [] le gt = ground arith
insert_pair_below p q (r ∷ ps) le gt =
    grind (arith, insert_pair_below p q ps le gt, lex_le_trans p.0 q.0 r.0)

insert_pair_comm :
    (p q : Pair) (ps : List Pair)
    → p.0 ≢ q.0
    → insert_pair p (insert_pair q ps) ≡ insert_pair q (insert_pair p ps)
insert_pair_comm p q ps ne = elim (Bool-cases (lex_le p.0 q.0)) [
  | inr gt ↦ sym (insert_pair_below q p ps (lex_le_total p.0 q.0 gt) gt)
  | inl le ↦ elim (Bool-cases (lex_le q.0 p.0)) [
    | inr gt ↦ insert_pair_below p q ps le gt
    | inl ge ↦ absurd (ne (lex_le_antisym p.0 q.0 le ge))
  ]
]

module _ (f : FloatOps) where
  -- One list of entries is another in a different order; entries whose keys are encoded alike
  -- keep their order.
  pub data Reorder : Entries → Entries → Type 0 where
    same : {m : Entries} → Reorder m m
    keep : {k v : Value} {m n : Entries} → Reorder m n → Reorder (entry k v m) (entry k v n)
    swap :
        {j v k w : Value} {m : Entries}
        → encode_into f j ≢ encode_into f k
        → Reorder (entry j v (entry k w m)) (entry k w (entry j v m))
    chain : {l m n : Entries} → Reorder l m → Reorder m n → Reorder l n

  sort_pairs-Reorder :
      {m n : Entries} → Reorder m n → sort_pairs (encode_pairs f m) ≡ sort_pairs (encode_pairs f n)
  unfolding encode_into encode_pairs sort_pairs
  sort_pairs-Reorder same = refl
  sort_pairs-Reorder (keep {k = k} {v = v} r) =
      ap (insert_pair (encode_into f k, encode_into f v)) (sort_pairs-Reorder r)
  sort_pairs-Reorder (swap {j = j} {v = v} {k = k} {w = w} {m = m} ne) =
      insert_pair_comm (encode_into f j, encode_into f v) (encode_into f k, encode_into f w)
        (sort_pairs (encode_pairs f m)) ne
  sort_pairs-Reorder (chain r s) = sort_pairs-Reorder r ∙ sort_pairs-Reorder s

  count_entries-Reorder : {m n : Entries} → Reorder m n → count_entries m ≡ count_entries n
  count_entries-Reorder same = refl
  count_entries-Reorder (keep r) = ap suc (count_entries-Reorder r)
  count_entries-Reorder (swap ne) = refl
  count_entries-Reorder (chain r s) = count_entries-Reorder r ∙ count_entries-Reorder s

  -- The order of a map's entries is irrelevant to its encoding, if entries whose keys are encoded
  -- alike keep theirs.
  pub to_canonical-Reorder :
      {m n : Entries} → Reorder m n → to_canonical f (dict m) ≡ to_canonical f (dict n)
  unfolding to_canonical encode_into
  to_canonical-Reorder r =
      ap₂ (λ c ps. encode_head 5 (c % 2 ^ 64) ++ flatten_pairs ps) (count_entries-Reorder r)
        (sort_pairs-Reorder r)
