-- ===== src/Reassembly/Cleanup.antt =====
-- loom-proto/src/reassembly.rs: the rule-1 cleanup of the window, on the map alone.
use loom_host.Base.{ℕ, suc, ◌≤◌, ◌<◌, Bool-cases}
use loom_host.Base.{subst, sym, ◌≡◌, refl, arith, inl, inr}
use loom_host.Base.{List, [], ◌∷◌, length, All}
use loom_host.Base.Int.{ℤ, pos, ◌<ℤ◌, leb_ℤ}
use loom_host.Base.BTreeMap.{
  BTreeMap, remove, keys, Ascends, Every, Every-remove, remove-Ascends, length-remove_le,
  remove_first,
}
use loom_host.Reassembly.{
  Reassembler, Incomplete, stale_keys, remove_all, count_dropped, max_ℤ, finish,
}

abbrev pub Window : Type 0
Window = BTreeMap Incomplete

-- Every key is above the newest completed frame.
abbrev pub Above : ℤ → Window → Type 0
Above n m = Every (λ k e. n <ℤ pos k) m

unfoldable pub remove_keys : List ℕ → Window → Window
remove_keys [] m = m
remove_keys (s ∷ ss) m = remove_keys ss (remove s m)

-- What the loop leaves alone, and what it does to the window.
pub remove_all_lem :
    (ss : List ℕ) (r : Reassembler)
    → ((remove_all ss r).incomplete ≡ remove_keys ss r.incomplete)
      × ((remove_all ss r).newest_complete ≡ r.newest_complete)
      × ((remove_all ss r).last_decoded ≡ r.last_decoded)
      × ((remove_all ss r).events ≡ r.events)
      × ((remove_all ss r).idr_last_t ≡ r.idr_last_t)
unfolding remove_all remove_keys count_dropped
remove_all_lem [] r = (refl, refl, refl, refl, refl)
remove_all_lem (s ∷ ss) r =
    remove_all_lem ss (count_dropped (record r { incomplete = remove s r.incomplete }))

module _ {κ} (P : ℕ → Incomplete → Type κ) where
  pub Every-remove_keys : (ss : List ℕ) (m : Window) → Every P m → Every P (remove_keys ss m)
  unfolding remove_keys
  Every-remove_keys [] m h = h
  Every-remove_keys (s ∷ ss) m h = Every-remove_keys ss (remove s m) (Every-remove P s m h)

pub remove_keys-Ascends :
    (lo : ℕ) (ss : List ℕ) (m : Window) → Ascends lo m → Ascends lo (remove_keys ss m)
unfolding remove_keys
remove_keys-Ascends lo [] m h = h
remove_keys-Ascends lo (s ∷ ss) m h =
    remove_keys-Ascends lo ss (remove s m) (remove-Ascends lo s m h)

pub length-remove_keys : (ss : List ℕ) (m : Window) → length (remove_keys ss m) ≤ length m
unfolding remove_keys
length-remove_keys [] m = omega arith
length-remove_keys (s ∷ ss) m =
    omega (arith, length-remove_keys ss (remove s m), length-remove_le s m)

-- Keys that are all above the head's leave the head alone.
remove_keys-cons :
    (j : ℕ) (w : Incomplete) (ss : List ℕ) (m : Window)
    → All (λ s. j < s) ss
    → remove_keys ss ((j, w) ∷ m) ≡ (j, w) ∷ remove_keys ss m
unfolding remove_keys remove
remove_keys-cons j w [] m h = refl
remove_keys-cons j w (s ∷ ss) m h = ground (arith, remove_keys-cons j w ss (remove s m))

stale_keys_above :
    (n : ℤ) (lo : ℕ) (m : Window) → Ascends (suc lo) m → All (λ s. lo < s) (stale_keys n (keys m))
unfolding stale_keys
stale_keys_above n lo [] h = tt
stale_keys_above n lo ((j, w) ∷ m) h = elim (Bool-cases (leb_ℤ (pos j) n)) [
  | inl old ↦ rw old (h.0, weaken (stale_keys n (keys m)) (stale_keys_above n j m h.1))
  | inr new ↦ rw new (weaken (stale_keys n (keys m)) (stale_keys_above n j m h.1))
]
  where
    weaken : (ss : List ℕ) → All (λ s. j < s) ss → All (λ s. lo < s) ss
    weaken [] q = tt
    weaken (s ∷ ss) q = (omega arith, weaken ss q.1)

-- The cleanup leaves exactly frames above the newest completed one.
pub cleanup-Above :
    (n : ℤ) (lo : ℕ) (m : Window) → Ascends lo m → Above n (remove_keys (stale_keys n (keys m)) m)
unfolding stale_keys remove_keys
cleanup-Above n lo [] h = tt
cleanup-Above n lo ((j, w) ∷ m) h = elim (Bool-cases (leb_ℤ (pos j) n)) [
  | inl old ↦ rw old (
      subst (λ x. Above n (remove_keys (stale_keys n (keys m)) x)) (sym (remove_first j w m))
        (cleanup-Above n (suc j) m h.1))
  | inr new ↦
      rw (new, remove_keys-cons j w (stale_keys n (keys m)) m (stale_keys_above n j m h.1))
        (ground arith, cleanup-Above n (suc j) m h.1)
]

-- The frames that a completed frame `seq` leaves in the window.
abbrev pub survivors : ℤ → ℕ → Window → Window
survivors n seq m = remove_keys (stale_keys n (keys (remove seq m))) (remove seq m)

-- What `finish` does, field by field.
pub finish_lem :
    (seq : ℕ) (r : Reassembler)
    → let n = max_ℤ r.newest_complete (pos seq) in
      ((finish seq r).incomplete ≡ survivors n seq r.incomplete)
      × ((finish seq r).newest_complete ≡ n)
      × ((finish seq r).last_decoded ≡ r.last_decoded)
      × ((finish seq r).events ≡ r.events)
      × ((finish seq r).idr_last_t ≡ r.idr_last_t)
unfolding finish
finish_lem seq r =
    let n = max_ℤ r.newest_complete (pos seq) in
    let m = remove seq r.incomplete in
    remove_all_lem (stale_keys n (keys m)) (record r { incomplete = m; newest_complete = n })
