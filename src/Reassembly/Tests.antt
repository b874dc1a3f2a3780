-- ===== src/Reassembly/Tests.antt =====
-- loom-proto/src/reassembly.rs: the crate's own test cases, and the theorems at concrete inputs.
use loom_host.Base.{ℕ, ◌≡◌, refl, inl, true, false, Bool, arith}
use loom_host.Base.{List, [], ◌∷◌, Option, none, some}
use loom_host.Base.Int.{ℤ, pos, ◌-ℤ◌, as_i64, as_u32}
use loom_host.Base.BTreeMap.{get, insert, remove}
use loom_host.Reassembly.{
  Event, deliver, idr_request, Reassembler, Fragment, Counters, new, push, run, absorb, complete,
  finish, gate, deliver_frame, maybe_idr, count_gap, count_dropped, limited, open_entry, make_room,
  remove_all, stale_keys,
}
use loom_host.Reassembly.Log.{IsLog, start}
use loom_host.Reassembly.Invariant.{IsValid, new-IsValid}
use loom_host.Reassembly.Push.{push-IsValid, run-IsValid}
use loom_host.Reassembly.Trace.{run-IsLog}
use loom_host.Reassembly.Collect.{Frame, arrivals, IsDelivered}
use loom_host.Reassembly.Delivery.{HasRoom, run-IsDelivered}

abbrev frag : ℕ → ℕ → ℕ → Bool → Fragment
frag s i c k = record { frame_seq = s; frag_index = i; frag_count = c; keyframe = k }

abbrev events_of : Option Reassembler → List Event
events_of none = []
events_of (some r) = r.events

abbrev counters_of : Option Reassembler → Option Counters
counters_of none = none
counters_of (some r) = some r.counters

-- `happy_path_delivers_in_order`
abbrev happy : List (ℤ × Fragment)
happy =
    (pos 0, frag 0 0 2 true)
    ∷ (pos 1, frag 0 1 2 true)
    ∷ (pos 14, frag 1 0 1 false)
    ∷ (pos 28, frag 2 0 1 false)
    ∷ []

happy_path :
    events_of (run happy new)
    ≡ deliver (pos 1) 0 true ∷ deliver (pos 14) 1 false ∷ deliver (pos 28) 2 false ∷ []
unfolding run push absorb complete finish gate deliver_frame open_entry remove_all stale_keys new
    as_i64 ◌-ℤ◌ get insert remove
happy_path = refl

-- `gap_triggers_single_idr_then_keyframe_clears_it`
abbrev gap : List (ℤ × Fragment)
gap =
    (pos 0, frag 0 0 1 true)
    ∷ (pos 14, frag 2 0 1 false)
    ∷ (pos 200, frag 3 0 1 false)
    ∷ (pos 900, frag 6 0 1 true)
    ∷ (pos 914, frag 7 0 1 false)
    ∷ []

gap_events :
    events_of (run gap new)
    ≡ deliver (pos 0) 0 true
      ∷ idr_request (pos 14) 0
      ∷ deliver (pos 900) 6 true
      ∷ deliver (pos 914) 7 false
      ∷ []
unfolding run push absorb complete finish gate deliver_frame maybe_idr count_gap limited open_entry
    remove_all stale_keys new as_i64 as_u32 ◌-ℤ◌ get insert remove
gap_events = refl

-- `window_holds_at_most_two_incomplete`
window_counters :
    counters_of (
      run
        ((pos 0, frag 0 0 1 true)
          ∷ (pos 10, frag 1 0 2 false)
          ∷ (pos 11, frag 2 0 2 false)
          ∷ (pos 12, frag 3 0 2 false)
          ∷ [])
        new)
    ≡ some (record { dropped_incomplete = 1; discarded_gap = 0; stale_fragments = 0 })
unfolding run push absorb complete finish gate deliver_frame open_entry make_room count_dropped
    remove_all stale_keys new as_i64 ◌-ℤ◌ get insert remove
window_counters = refl

push-IsValid_example :
    (r' : Reassembler) × (push (pos 0) (frag 0 0 2 true) new ≡ some r') × IsValid r'
push-IsValid_example = push-IsValid (pos 0) (frag 0 0 2 true) new-IsValid

run-IsValid_example : (r' : Reassembler) × (run gap new ≡ some r') × IsValid r'
run-IsValid_example = run-IsValid gap new-IsValid

run-IsLog_example : (r : Reassembler) × (run gap new ≡ some r) × IsLog start r.events
run-IsLog_example = run-IsLog gap (omega arith)

-- A keyframe of three fragments that arrive out of order.
abbrev key_frame : Frame
key_frame = record { seq = 5; count = 3; keyframe = true }

new_room : HasRoom key_frame new
unfolding new get
new_room = record { absent = refl; room = inl (omega arith) }

run-IsDelivered_example :
    (r' : Reassembler) × (run (arrivals key_frame ((pos 1, 2) ∷ (pos 2, 0) ∷ (pos 3, 1) ∷ [])) new
      ≡ some r')
    × IsDelivered key_frame (pos 3) new r'
run-IsDelivered_example =
    run-IsDelivered key_frame (pos 1) 2 ((pos 2, 0) ∷ (pos 3, 1) ∷ []) new-IsValid
      (unfold new in omega arith) new_room (refl, (refl, (refl, tt))) (omega arith) (omega arith)
      (inl refl)
