-- ===== src/Reassembly.antt =====
-- loom-proto/src/reassembly.rs: the client's receive model, a state machine over fragments.
-- `i64` values are integers; a `u32` sequence number and a `u16` index are numbers. `none` is the
-- panic of an `expect`.
pub mod Cleanup
pub mod Invariant
pub mod Push
pub mod Log
pub mod Events
pub mod Trace
pub mod Collect
pub mod Delivery
mod Tests
use loom_host.Base.{ℕ, zero, suc, ◌+◌, ◌-◌, ◌%◌, ◌^◌, ltb, leb, ◌==◌, if◌then◌else◌}
use loom_host.Base.{Bool, true, false, not, Option, none, some, List, [], ◌∷◌, ◌++◌, length, any}
use loom_host.Base.Int.{ℤ, pos, negsuc, ◌-ℤ◌, leb_ℤ, ltb_ℤ, eqb_ℤ, as_i64, as_u32}
use loom_host.Base.BTreeMap.{BTreeMap, get, insert, remove, first_key, keys}

pub record Fragment : Type 0 where
  pub frame_seq : ℕ
  pub frag_index : ℕ
  pub frag_count : ℕ
  pub keyframe : Bool

pub data Event : Type 0 where
  deliver : ℤ → ℕ → Bool → Event
  idr_request : ℤ → ℕ → Event

pub record Counters : Type 0 where
  pub dropped_incomplete : ℕ
  pub discarded_gap : ℕ
  pub stale_fragments : ℕ

-- The `HashSet` of fragment indices is a list without repetition.
pub record Incomplete : Type 0 where
  pub need : ℕ
  pub have : List ℕ
  pub keyframe : Bool

pub record Reassembler : Type 0 where
  pub newest_complete : ℤ
  pub last_decoded : Option ℤ
  pub incomplete : BTreeMap Incomplete
  pub events : List Event
  pub counters : Counters
  pub idr_last_t : Option ℤ

unfoldable pub new : Reassembler
new = record {
  newest_complete = negsuc 0;
  last_decoded = none;
  incomplete = [];
  events = [];
  counters = record { dropped_incomplete = 0; discarded_gap = 0; stale_fragments = 0 };
  idr_last_t = none;
}

-- `+= 1` on a `u64` counter.
abbrev pub bump : ℕ → ℕ
bump n = (n + 1) % 2 ^ 64

abbrev pub set_contains : ℕ → List ℕ → Bool
set_contains a xs = any (λ x. x == a) xs

-- `HashSet::insert`
abbrev pub set_insert : ℕ → List ℕ → List ℕ
set_insert a xs = if set_contains a xs then xs else a ∷ xs

-- `i64::max`
abbrev pub max_ℤ : ℤ → ℤ → ℤ
max_ℤ a b = if leb_ℤ a b then b else a

-- `Option<i64> == Some(z)`
abbrev pub is_some_eq : Option ℤ → ℤ → Bool
is_some_eq none z = false
is_some_eq (some a) z = eqb_ℤ a z

abbrev pub unwrap_or : Option ℤ → ℤ → ℤ
unwrap_or none d = d
unwrap_or (some a) d = a

unfoldable pub count_stale : Reassembler → Reassembler
count_stale r = record r {
  counters = record (r.counters) { stale_fragments = bump r.counters.stale_fragments };
}

unfoldable pub count_dropped : Reassembler → Reassembler
count_dropped r = record r {
  counters = record (r.counters) { dropped_incomplete = bump r.counters.dropped_incomplete };
}

unfoldable pub count_gap : Reassembler → Reassembler
count_gap r = record r {
  counters = record (r.counters) { discarded_gap = bump r.counters.discarded_gap };
}

-- `deliver`
unfoldable pub deliver_frame : ℤ → ℕ → Bool → Reassembler → Reassembler
deliver_frame t_ms seq keyframe r = record r {
  events = r.events ++ (deliver t_ms seq keyframe ∷ []);
  last_decoded = some (pos seq);
}

-- `if let Some(last) = idr_last_t { if t_ms - last < 250 { return } }`
unfoldable pub limited : ℤ → Option ℤ → Bool
limited t_ms none = false
limited t_ms (some last) = ltb_ℤ (as_i64 (t_ms -ℤ last)) (pos 250)

unfoldable pub maybe_idr : ℤ → Reassembler → Reassembler
maybe_idr t_ms r = if limited t_ms r.idr_last_t then r else record r {
  events = r.events ++ (idr_request t_ms (as_u32 (unwrap_or r.last_decoded (pos 0))) ∷ []);
  idr_last_t = some t_ms;
}

-- Rule 3, decode gating.
unfoldable pub gate : ℤ → ℕ → Bool → Reassembler → Reassembler
gate t_ms seq keyframe r =
    if keyframe
    then deliver_frame t_ms seq true r
    else if is_some_eq r.last_decoded (as_i64 (pos seq -ℤ pos 1))
    then deliver_frame t_ms seq false r
    else maybe_idr t_ms (count_gap r)

-- The keys that the rule-1 cleanup collects.
unfoldable pub stale_keys : ℤ → List ℕ → List ℕ
stale_keys newest [] = []
stale_keys newest (s ∷ ss) =
    let rest = stale_keys newest ss in if leb_ℤ (pos s) newest then s ∷ rest else rest

-- The loop over those keys.
unfoldable pub remove_all : List ℕ → Reassembler → Reassembler
remove_all [] r = r
remove_all (s ∷ ss) r =
    remove_all ss (count_dropped (record r { incomplete = remove s r.incomplete }))

-- From "Frame complete" to the cleanup.
unfoldable pub finish : ℕ → Reassembler → Reassembler
finish seq r =
    let r' = record r {
      incomplete = remove seq r.incomplete;
      newest_complete = max_ℤ r.newest_complete (pos seq);
    } in
    remove_all (stale_keys r'.newest_complete (keys r'.incomplete)) r'

unfoldable pub complete : ℤ → ℕ → Bool → Reassembler → Reassembler
complete t_ms seq keyframe r = gate t_ms seq keyframe (finish seq r)

-- From `get_mut` on: the fragment joins its frame's entry.
unfoldable pub absorb : ℤ → Fragment → Reassembler → Option Reassembler
absorb t_ms frag r = elim (get frag.frame_seq r.incomplete) [
  | none ↦ none
  | some e ↦
      let have' = set_insert frag.frag_index e.have in
      let r' = record r {
        incomplete = insert frag.frame_seq (record e { have = have' }) r.incomplete;
      } in
      if length have' == e.need then some (complete t_ms frag.frame_seq e.keyframe r') else some r'
]

-- `incomplete.insert(seq, Incomplete { … })`
unfoldable pub open_entry : Fragment → Reassembler → Reassembler
open_entry frag r = record r {
  incomplete =
      insert frag.frame_seq (record { need = frag.frag_count; have = []; keyframe = frag.keyframe })
        r.incomplete;
}

-- Rule 2 at a full window whose oldest key is given.
unfoldable pub make_room : ℤ → Fragment → Option ℕ → Reassembler → Option Reassembler
make_room t_ms frag none r = none
make_room t_ms frag (some oldest) r =
    if ltb oldest frag.frame_seq
    then absorb t_ms frag
        (open_entry frag (count_dropped (record r { incomplete = remove oldest r.incomplete })))
    else some (count_stale r)

-- `contains_key`
abbrev pub contains_key : ℕ → BTreeMap Incomplete → Bool
contains_key k m = elim (get k m) [ none ↦ false | some e ↦ true ]

unfoldable pub push : ℤ → Fragment → Reassembler → Option Reassembler
push t_ms frag r =
    if leb_ℤ (pos frag.frame_seq) r.newest_complete
    then some (count_stale r)
    else if contains_key frag.frame_seq r.incomplete
    then absorb t_ms frag r
    else if leb 2 (length r.incomplete)
    then make_room t_ms frag (first_key r.incomplete) r
    else absorb t_ms frag (open_entry frag r)

-- A trace: fragments with their arrival times, in order.
unfoldable pub run : List (ℤ × Fragment) → Reassembler → Option Reassembler
run [] r = some r
run ((t_ms, frag) ∷ trace) r = elim (push t_ms frag r) [ none ↦ none | some r' ↦ run trace r' ]
