-- ===== src/Reassembly/Invariant.antt =====
-- loom-proto/src/reassembly.rs: what holds of a reassembler between two fragments.
use loom_host.Base.{ℕ, ◌≤◌}
use loom_host.Base.{Bool, ◌≡◌, ◌≢◌, ◌∙◌, arith}
use loom_host.Base.{length, Option, none, some}
use loom_host.Base.Int.{ℤ, pos, negsuc, ◌≤ℤ◌}
use loom_host.Base.BTreeMap.{remove, keys, IsMap, Every, remove-Ascends, length-remove_le}
use loom_host.Reassembly.{
  Reassembler, Incomplete, new, complete, finish, gate, maybe_idr, count_gap, deliver_frame, max_ℤ,
  stale_keys,
}
use loom_host.Reassembly.Cleanup.{
  finish_lem, survivors, Above, Every-remove_keys, remove_keys-Ascends, length-remove_keys,
  cleanup-Above,
}

-- A frame in the window has a fragment, and is not complete.
abbrev pub IsOpen : ℕ → Incomplete → Type 0
IsOpen k e = (1 ≤ length e.have) × (length e.have ≢ e.need)

abbrev pub NoneAbove : Option ℤ → ℤ → Type 0
NoneAbove none n = Unit
NoneAbove (some d) n = d ≤ℤ n

-- The window is a map of at most two frames, all newer than the newest completed frame and none of
-- them complete; the newest decoded frame is not newer than the newest completed one.
pub record IsValid (r : Reassembler) : Type 0 where
  pub sorted : IsMap r.incomplete
  pub room : length r.incomplete ≤ 2
  pub above : Above r.newest_complete r.incomplete
  pub unfinished : Every IsOpen r.incomplete
  pub decoded : NoneAbove r.last_decoded r.newest_complete
  pub floor : negsuc 0 ≤ℤ r.newest_complete

pub new-IsValid : IsValid new
unfolding new
new-IsValid = ground arith

-- The gate changes no part of the window.
pub gate_lem :
    (t : ℤ) (seq : ℕ) (key : Bool) (r : Reassembler)
    → ((gate t seq key r).incomplete ≡ r.incomplete)
      × ((gate t seq key r).newest_complete ≡ r.newest_complete)
unfolding gate deliver_frame maybe_idr count_gap
gate_lem t seq key r = ground arith

gate-decoded :
    (t : ℤ) (seq : ℕ) (key : Bool) (r : Reassembler)
    → NoneAbove r.last_decoded r.newest_complete
    → pos seq ≤ℤ r.newest_complete
    → NoneAbove (gate t seq key r).last_decoded r.newest_complete
unfolding gate deliver_frame maybe_idr count_gap
gate-decoded t seq key r h k = ground arith

NoneAbove-le : (o : Option ℤ) (a b : ℤ) → NoneAbove o a → a ≤ℤ b → NoneAbove o b
NoneAbove-le none a b h k = tt
NoneAbove-le (some d) a b h k = omega arith

-- Completing a frame restores the invariant, whatever its entry was.
pub complete-IsValid :
    (t : ℤ) (seq : ℕ) (key : Bool) (r : Reassembler)
    → IsMap r.incomplete
    → length r.incomplete ≤ 2
    → Every IsOpen (remove seq r.incomplete)
    → NoneAbove r.last_decoded r.newest_complete
    → negsuc 0 ≤ℤ r.newest_complete
    → IsValid (complete t seq key r)
unfolding complete
complete-IsValid t seq key r sorted room opened dec floor =
    let n = max_ℤ r.newest_complete (pos seq) in
    let m = remove seq r.incomplete in
    let f = finish seq r in
    let (inc, new, last, _, _) = finish_lem seq r in
    let (ginc, gnew) = gate_lem t seq key f in
    let same : (complete t seq key r).incomplete ≡ survivors n seq r.incomplete = ginc ∙ inc in
    let now : (complete t seq key r).newest_complete ≡ n = gnew ∙ new in
    let sorted' : IsMap m = remove-Ascends 0 seq r.incomplete sorted in
    record {
      sorted = rw same (remove_keys-Ascends 0 (stale_keys n (keys m)) m sorted');
      room = rw same (
          omega (
            arith,
            length-remove_keys (stale_keys n (keys m)) m,
            length-remove_le seq r.incomplete,
          ));
      above = rw (same, now) (cleanup-Above n 0 m sorted');
      unfinished = rw same (Every-remove_keys IsOpen (stale_keys n (keys m)) m opened);
      decoded = rw gnew (
          gate-decoded t seq key f
            (rw (last, new) (NoneAbove-le r.last_decoded r.newest_complete n dec (ground arith)))
            (rw new (ground arith)));
      floor = rw now (ground arith);
    }
