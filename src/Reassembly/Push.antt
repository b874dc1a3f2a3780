-- ===== src/Reassembly/Push.antt =====
-- loom-proto/src/reassembly.rs: one fragment keeps the invariant, and so does a trace of them.
use loom_host.Base.{ℕ, ◌≤◌, leb, ltb, ◌==◌, if◌then◌else◌}
use loom_host.Base.{Bool-cases, Option-cases}
use loom_host.Base.{◌≡◌, ◌≢◌, refl, arith, inl, inr}
use loom_host.Base.{List, [], ◌∷◌, length, Option, none, some}
use loom_host.Base.Int.{ℤ, pos, negsuc, ◌<ℤ◌, ◌≤ℤ◌, leb_ℤ}
use loom_host.Base.BTreeMap.{
  remove-insert, Every-insert_removed, get, insert, remove, first_key, IsMap, Every, Every-insert,
  Every-remove, insert-Ascends, remove-Ascends, length-remove_le, length-insert, length-insert_old,
  get-insert,
}
use loom_host.Reassembly.{
  Reassembler, Incomplete, Fragment, push, run, absorb, complete, count_stale, count_dropped,
  open_entry, make_room, set_insert, contains_key,
}
use loom_host.Reassembly.Cleanup.{Window, Above}
use loom_host.Reassembly.Invariant.{IsOpen, NoneAbove, IsValid, complete-IsValid}

length-set_insert : (a : ℕ) (xs : List ℕ) → 1 ≤ length (set_insert a xs)
length-set_insert a [] = omega arith
length-set_insert a (x ∷ xs) = ground arith

-- What holds just before a fragment joins its frame: the frame's own entry may be empty.
pub record IsReady (seq : ℕ) (r : Reassembler) : Type 0 where
  pub sorted : IsMap r.incomplete
  pub room : length r.incomplete ≤ 2
  pub above : Above r.newest_complete r.incomplete
  pub others : Every IsOpen (remove seq r.incomplete)
  pub decoded : NoneAbove r.last_decoded r.newest_complete
  pub floor : negsuc 0 ≤ℤ r.newest_complete
  pub newer : r.newest_complete <ℤ pos seq
  pub entry : Incomplete
  pub present : get seq r.incomplete ≡ some entry

module _ (t : ℤ) (frag : Fragment) where
  abbrev pub joined : Incomplete → Incomplete
  joined e = record e { have = set_insert frag.frag_index e.have }

  abbrev pub stored : Incomplete → Reassembler → Reassembler
  stored e r = record r { incomplete = insert frag.frame_seq (joined e) r.incomplete }

  pub absorb-some :
      {r : Reassembler} (v : IsReady frag.frame_seq r)
      → absorb t frag r ≡ (
          if length (joined v.entry).have == v.entry.need
          then some (complete t frag.frame_seq v.entry.keyframe (stored v.entry r))
          else some (stored v.entry r))
  unfolding absorb
  absorb-some v = rw (v.present, absorb)

  stored-IsValid :
      {r : Reassembler} (v : IsReady frag.frame_seq r)
      → length (joined v.entry).have ≢ v.entry.need
      → IsValid (stored v.entry r)
  stored-IsValid {r} v ne = record {
    sorted = insert-Ascends 0 frag.frame_seq (joined v.entry) r.incomplete (omega arith) v.sorted;
    room = omega (
      arith,
      length-insert_old frag.frame_seq 0 (joined v.entry) r.incomplete v.sorted v.present,
    );
    above =
        Every-insert (λ k e. r.newest_complete <ℤ pos k) frag.frame_seq (joined v.entry)
          r.incomplete v.newer v.above;
    unfinished =
        Every-insert_removed IsOpen frag.frame_seq 0 (joined v.entry) r.incomplete v.sorted
          (length-set_insert frag.frag_index v.entry.have, ne) v.others;
    decoded = v.decoded;
    floor = v.floor;
  }

  completed-IsValid :
      {r : Reassembler} (v : IsReady frag.frame_seq r)
      → IsValid (complete t frag.frame_seq v.entry.keyframe (stored v.entry r))
  completed-IsValid {r} v =
      complete-IsValid t frag.frame_seq v.entry.keyframe (stored v.entry r)
        (insert-Ascends 0 frag.frame_seq (joined v.entry) r.incomplete (omega arith) v.sorted)
        (omega (
          arith,
          length-insert_old frag.frame_seq 0 (joined v.entry) r.incomplete v.sorted v.present,
        ))
        (rw (remove-insert frag.frame_seq 0 (joined v.entry) r.incomplete v.sorted) v.others)
        v.decoded v.floor

  -- A fragment whose frame is in the window is absorbed, and the invariant holds again.
  absorb-IsValid :
      {r : Reassembler}
      → IsReady frag.frame_seq r
      → (r' : Reassembler) × (absorb t frag r ≡ some r') × IsValid r'
  absorb-IsValid {r} v = elim (Bool-cases (length (joined v.entry).have == v.entry.need)) [
    | inl full ↦ (
      complete t frag.frame_seq v.entry.keyframe (stored v.entry r),
      rw (absorb-some v, full),
      completed-IsValid v,
    )
    | inr short ↦ (stored v.entry r, rw (absorb-some v, short), stored-IsValid v (ground arith))
  ]

  -- Opening an entry at a window with room for it.
  pub open-IsReady :
      {r : Reassembler}
      → IsValid r
      → length r.incomplete ≤ 1
      → r.newest_complete <ℤ pos frag.frame_seq
      → IsReady frag.frame_seq (open_entry frag r)
  unfolding open_entry
  open-IsReady {r} v small newer =
      let e : Incomplete = record { need = frag.frag_count; have = []; keyframe = frag.keyframe } in
      record {
        sorted = insert-Ascends 0 frag.frame_seq e r.incomplete (omega arith) v.sorted;
        room = omega (arith, length-insert frag.frame_seq e r.incomplete);
        above =
            Every-insert (λ k e. r.newest_complete <ℤ pos k) frag.frame_seq e r.incomplete newer
              v.above;
        others =
            rw (remove-insert frag.frame_seq 0 e r.incomplete v.sorted)
              (Every-remove IsOpen frag.frame_seq r.incomplete v.unfinished);
        decoded = v.decoded;
        floor = v.floor;
        newer = newer;
        entry = e;
        present =
            rw (get-insert frag.frame_seq frag.frame_seq 0 e r.incomplete v.sorted) (ground arith);
      }

  -- An entry that is there is ready.
  old-IsReady :
      {r : Reassembler} (e : Incomplete)
      → IsValid r
      → get frag.frame_seq r.incomplete ≡ some e
      → r.newest_complete <ℤ pos frag.frame_seq
      → IsReady frag.frame_seq r
  old-IsReady {r} e v here newer = record {
    sorted = v.sorted;
    room = v.room;
    above = v.above;
    others = Every-remove IsOpen frag.frame_seq r.incomplete v.unfinished;
    decoded = v.decoded;
    floor = v.floor;
    newer = newer;
    entry = e;
    present = here;
  }

  pub evict-IsValid :
      {r : Reassembler} (k : ℕ)
      → IsValid r
      → IsValid (count_dropped (record r { incomplete = remove k r.incomplete }))
  unfolding count_dropped
  evict-IsValid {r} k v = record {
    sorted = remove-Ascends 0 k r.incomplete v.sorted;
    room = omega (arith, length-remove_le k r.incomplete, v.room);
    above = Every-remove (λ k e. r.newest_complete <ℤ pos k) k r.incomplete v.above;
    unfinished = Every-remove IsOpen k r.incomplete v.unfinished;
    decoded = v.decoded;
    floor = v.floor;
  }

  count_stale-IsValid : {r : Reassembler} → IsValid r → IsValid (count_stale r)
  unfolding count_stale
  count_stale-IsValid v = record {
    sorted = v.sorted;
    room = v.room;
    above = v.above;
    unfinished = v.unfinished;
    decoded = v.decoded;
    floor = v.floor;
  }

  pub length-evict :
      (m : Window) {k : ℕ} → length m ≤ 2 → first_key m ≡ some k → length (remove k m) ≤ 1
  unfolding remove
  length-evict [] small e = cc
  length-evict ((j, w) ∷ m) {k} small e = ground arith

  make_room-IsValid :
      {r : Reassembler} (o : Option ℕ)
      → IsValid r
      → 2 ≤ length r.incomplete
      → first_key r.incomplete ≡ o
      → r.newest_complete <ℤ pos frag.frame_seq
      → (r' : Reassembler) × (make_room t frag o r ≡ some r') × IsValid r'
  unfolding make_room
  make_room-IsValid {r} none v full e newer = absurd (no_first r.incomplete full e)
    where
      no_first : (m : Window) → 2 ≤ length m → first_key m ≡ none → ⊥
      no_first [] h p = omega arith
      no_first ((j, w) ∷ m) h p = cc
  make_room-IsValid {r} (some k) v full e newer = elim (Bool-cases (ltb k frag.frame_seq)) [
    | inl young ↦ rw young (
        absorb-IsValid (
          open-IsReady (evict-IsValid k v)
            (unfold count_dropped in length-evict r.incomplete v.room e)
            (unfold count_dropped in newer)))
    | inr old ↦ rw old (count_stale r, refl, count_stale-IsValid v)
  ]

  -- Every fragment is taken without a panic, and keeps the invariant.
  pub push-IsValid :
      {r : Reassembler} → IsValid r → (r' : Reassembler) × (push t frag r ≡ some r') × IsValid r'
  unfolding push
  push-IsValid {r} v = elim (Bool-cases (leb_ℤ (pos frag.frame_seq) r.newest_complete)) [
    | inl stale ↦ rw stale (count_stale r, refl, count_stale-IsValid v)
    | inr fresh ↦
        let newer : r.newest_complete <ℤ pos frag.frame_seq = ground arith in
        rw fresh (elim (Option-cases (get frag.frame_seq r.incomplete)) [
          | inr (e, here) ↦ rw (here, contains_key) (absorb-IsValid (old-IsReady e v here newer))
          | inl gone ↦
              rw (gone, contains_key)
                (elim (Bool-cases (leb 2 (length r.incomplete))) [
                  | inl full ↦
                      rw full
                        (make_room-IsValid (first_key r.incomplete) v (ground arith) refl newer)
                  | inr room ↦ rw room (absorb-IsValid (open-IsReady v (ground arith) newer))
                ])
        ])
  ]

-- A trace of fragments, whatever they are, runs without a panic from a valid reassembler to a
-- valid one.
pub run-IsValid :
    (trace : List (ℤ × Fragment)) {r : Reassembler}
    → IsValid r
    → (r' : Reassembler) × (run trace r ≡ some r') × IsValid r'
unfolding run
run-IsValid [] {r} v = (r, refl, v)
run-IsValid ((t, frag) ∷ trace) {r} v =
    let (r', e, v') = push-IsValid t frag v in
    let (q, f, w) = run-IsValid trace v' in (q, rw (e, run) f, w)
