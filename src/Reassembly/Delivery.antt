-- ===== src/Reassembly/Delivery.antt =====
-- loom-proto/src/reassembly.rs: a frame whose fragments all arrive is delivered.
use loom_host.Base.{ℕ, suc, ◌^◌, ◌≤◌, ◌<◌, leb, ltb}
use loom_host.Base.{true, false, ◌≡◌, refl, ◌∙◌, ◌⊎◌, inl, inr, arith}
use loom_host.Base.{List, [], ◌∷◌, length, none, some}
use loom_host.Base.Int.{ℤ, pos, ◌<ℤ◌, leb_ℤ}
use loom_host.Base.BTreeMap.{get, insert, remove, first_key, get-insert}
use loom_host.Reassembly.{
  Reassembler, Incomplete, push, run, absorb, contains_key, open_entry, count_dropped, make_room,
}
use loom_host.Reassembly.Invariant.{IsValid}
use loom_host.Reassembly.Push.{open-IsReady, evict-IsValid, length-evict}
use loom_host.Reassembly.Collect.{
  Frame, fragment_at, arrivals, Distinct, last_time, Decodes, IsDelivered, IsCollecting, collects,
}

-- The frame is not in the window, and the window can take it: it holds one frame at most, or its
-- oldest frame is older.
pub record HasRoom (f : Frame) (r : Reassembler) : Type 0 where
  pub absent : get f.seq r.incomplete ≡ none
  pub room :
      (length r.incomplete ≤ 1)
      ⊎ ((2 ≤ length r.incomplete) × ((k : ℕ) × (first_key r.incomplete ≡ some k) × (k < f.seq)))

abbrev empty_entry : Frame → Incomplete
empty_entry f = record { need = f.count; have = []; keyframe = f.keyframe }

-- A window just opened for the frame has seen none of it.
opened_collects :
    (f : Frame) (t : ℤ) (i : ℕ) {r : Reassembler}
    → IsValid r
    → length r.incomplete ≤ 1
    → r.newest_complete <ℤ pos f.seq
    → IsCollecting f [] (open_entry (fragment_at f i) r)
opened_collects f t i {r} v small newer =
    let q = open-IsReady t (fragment_at f i) v small newer in
    let here : get f.seq (insert f.seq (empty_entry f) r.incomplete) ≡ some (empty_entry f) =
      rw (get-insert f.seq f.seq 0 (empty_entry f) r.incomplete v.sorted) (ground arith) in
    let there : get f.seq (insert f.seq (empty_entry f) r.incomplete) ≡ some q.entry =
      unfold open_entry in q.present in
    let e : q.entry ≡ empty_entry f = cc (here, there) in
    record { ready = q; have = rw e; need = rw e; key = rw e }

-- The window when the first fragment joins.
starts :
    (f : Frame) (t : ℤ) (i : ℕ) {r : Reassembler}
    → IsValid r
    → r.newest_complete <ℤ pos f.seq
    → HasRoom f r
    → (s : Reassembler) × (push t (fragment_at f i) r ≡ absorb t (fragment_at f i) s)
      × IsCollecting f [] s
      × (s.events ≡ r.events)
      × (s.last_decoded ≡ r.last_decoded)
unfolding push make_room
starts f t i {r} v newer h = elim h.room [
  | inl small ↦ (
    open_entry (fragment_at f i) r,
    rw fresh (rw (h.absent, contains_key) (rw (not_full small))),
    opened_collects f t i v small newer,
    unfold open_entry in refl,
    unfold open_entry in refl,
  )
  | inr (full, (k, first, older)) ↦
      let less = count_dropped (record r { incomplete = remove k r.incomplete }) in
      (
        open_entry (fragment_at f i) less,
        rw fresh (rw (h.absent, contains_key) (rw (is_full full) (rw first (rw (old older))))),
        opened_collects f t i (evict-IsValid t (fragment_at f i) k v)
            (unfold count_dropped in length-evict t (fragment_at f i) r.incomplete v.room first)
            (unfold count_dropped in newer),
        unfold open_entry count_dropped in refl,
        unfold open_entry count_dropped in refl,
      )
]
  where
    fresh : leb_ℤ (pos f.seq) r.newest_complete ≡ false
    fresh = ground arith

    not_full : length r.incomplete ≤ 1 → leb 2 (length r.incomplete) ≡ false
    not_full s = ground arith

    is_full : 2 ≤ length r.incomplete → leb 2 (length r.incomplete) ≡ true
    is_full s = ground arith

    old : {k : ℕ} → k < f.seq → ltb k f.seq ≡ true
    old s = ground arith

-- From a valid reassembler, a frame newer than every completed one, for which the window has room,
-- is delivered at the time of its last fragment, if each of its fragments arrives once, in any
-- order, with no other between; and it is then the newest completed and the last decoded frame.
-- The frame must be one that the decoder can take.
pub run-IsDelivered :
    (f : Frame) (t : ℤ) (i : ℕ) (rest : List (ℤ × ℕ)) {r : Reassembler}
    → IsValid r
    → r.newest_complete <ℤ pos f.seq
    → HasRoom f r
    → Distinct [] ((t, i) ∷ rest)
    → suc (length rest) ≡ f.count
    → f.seq < 2 ^ 32
    → Decodes f r.last_decoded
    → (r' : Reassembler) × (run (arrivals f ((t, i) ∷ rest)) r ≡ some r')
      × IsDelivered f (last_time t rest) r r'
unfolding run
run-IsDelivered f t i rest {r} v newer h d n small dec =
    let (s, e, c, ev, ld) = starts f t i v newer h in
    let (q, r', e', run', ok) = collects f t i rest [] c d (omega arith) small (rw ld dec) in
    (
      r',
      rw (e ∙ e', run) run',
      record { events = rw ev at ok.events; newest = ok.newest; decoded = ok.decoded },
    )
