-- ===== src/Reassembly/Trace.antt =====
-- loom-proto/src/reassembly.rs: over any trace the reassembler writes a log that Log allows.
use loom_host.Base.{ℕ, ◌^◌, ◌<◌, leb, ltb, ◌==◌}
use loom_host.Base.{Bool-cases, Option-cases, ◌⊎◌, length}
use loom_host.Base.{Bool, ◌≡◌, refl, sym, subst, arith, inl, inr}
use loom_host.Base.{List, [], ◌∷◌, All, Option, none, some}
use loom_host.Base.Int.{ℤ, pos, ◌<ℤ◌, leb_ℤ}
use loom_host.Reassembly.{
  Reassembler, Fragment, new, push, run, absorb, complete, open_entry, make_room, set_insert,
  contains_key, count_stale, count_dropped,
}
use loom_host.Base.BTreeMap.{get, insert, remove, first_key}
use loom_host.Reassembly.Invariant.{IsValid, new-IsValid}
use loom_host.Reassembly.Log.{start, IsLog}
use loom_host.Reassembly.Push.{push-IsValid}
use loom_host.Reassembly.Events.{IsTime, IsLogged, SameLog, IsLogged-same, complete-IsLogged}

-- A fragment leaves the log as it is, or completes its frame in a reassembler with the same log.
abbrev Outcome : ℤ → Fragment → Reassembler → Reassembler → Type 0
Outcome t frag r r' =
    SameLog r r'
    ⊎ ((key : Bool) × (s : Reassembler) × (r' ≡ complete t frag.frame_seq key s) × SameLog r s)

-- Before that, the window may have been prepared.
Outcome-after :
    (t : ℤ) (frag : Fragment) {r s r' : Reassembler}
    → SameLog r s
    → Outcome t frag s r'
    → Outcome t frag r r'
Outcome-after t frag same (inl q) = inl (ground arith)
Outcome-after t frag same (inr (key, u, e, q)) = inr (key, u, e, ground arith)

module _ (t : ℤ) (frag : Fragment) where
  absorb-Outcome :
      (r : Reassembler) {r' : Reassembler} → absorb t frag r ≡ some r' → Outcome t frag r r'
  unfolding absorb
  absorb-Outcome r {r'} e = elim (Option-cases (get frag.frame_seq r.incomplete)) [
    | inl gone ↦ absurd (ground arith)
    | inr (i, here) ↦
        let have' = set_insert frag.frag_index i.have in
        let s = record r {
          incomplete = insert frag.frame_seq (record i { have = have' }) r.incomplete;
        } in
        elim (Bool-cases (length have' == i.need)) [
          | inl full ↦ inr (
            i.keyframe,
            s,
            ground arith,
            record {
              events = refl;
              last_decoded = refl;
              idr_last_t = refl;
              newest_complete = refl;
            },
          )
          | inr short ↦ inl (ground arith)
        ]
  ]

  make_room-Outcome :
      (o : Option ℕ) (r : Reassembler) {r' : Reassembler}
      → make_room t frag o r ≡ some r'
      → Outcome t frag r r'
  unfolding make_room
  make_room-Outcome none r e = absurd (ground arith)
  make_room-Outcome (some k) r {r'} e =
      let s = open_entry frag (count_dropped (record r { incomplete = remove k r.incomplete })) in
      elim (Bool-cases (ltb k frag.frame_seq)) [
        | inl young ↦
            Outcome-after t frag {r = r} {s = s}
              (unfold open_entry count_dropped in
                record {
                  events = refl;
                  last_decoded = refl;
                  idr_last_t = refl;
                  newest_complete = refl;
                })
              (absorb-Outcome s (rw young at e))
        | inr old ↦ inl (unfold count_stale in ground arith)
      ]

  -- A stale fragment, or one whose outcome is of a frame newer than all that were completed.
  push-Outcome :
      (r : Reassembler) {r' : Reassembler}
      → push t frag r ≡ some r'
      → SameLog r r' ⊎ (Outcome t frag r r' × (r.newest_complete <ℤ pos frag.frame_seq))
  unfolding push
  push-Outcome r {r'} e = elim (Bool-cases (leb_ℤ (pos frag.frame_seq) r.newest_complete)) [
    | inl stale ↦ inl (unfold count_stale in ground arith)
    | inr fresh ↦ inr (
      elim (Bool-cases (contains_key frag.frame_seq r.incomplete)) [
        | inl here ↦ absorb-Outcome r (rw (fresh, here) at e)
        | inr gone ↦ elim (Bool-cases (leb 2 (length r.incomplete))) [
          | inl full ↦ make_room-Outcome (first_key r.incomplete) r (rw (fresh, gone, full) at e)
          | inr room ↦
              Outcome-after t frag {r = r} {s = open_entry frag r}
                (unfold open_entry in
                  record {
                    events = refl;
                    last_decoded = refl;
                    idr_last_t = refl;
                    newest_complete = refl;
                  })
                (absorb-Outcome (open_entry frag r) (rw (fresh, gone, room) at e))
        ]
      ],
      ground arith,
    )
  ]

  same-IsLogged : {r s : Reassembler} → IsLogged r → SameLog r s → IsLogged s
  same-IsLogged {r} {s} v q = IsLogged-same s v q.events q.last_decoded q.idr_last_t

  -- One fragment extends an allowed log to an allowed log.
  push-IsLogged :
      {r r' : Reassembler}
      → IsValid r
      → IsLogged r
      → IsTime t
      → frag.frame_seq < 2 ^ 32
      → push t frag r ≡ some r'
      → IsLogged r'
  push-IsLogged {r} {r'} v l ht small e = elim (push-Outcome r e) [
    | inl q ↦ same-IsLogged l q
    | inr (inl q, newer) ↦ same-IsLogged l q
    | inr (inr (key, s, same, q), newer) ↦ subst IsLogged (sym same) (
        complete-IsLogged t frag.frame_seq key (same-IsLogged l q) ht small
          (rw (q.last_decoded, q.newest_complete) v.decoded) (rw q.newest_complete newer))
  ]

-- What the types of the source say of a fragment and its time.
abbrev pub IsArrival : ℤ × Fragment → Type 0
IsArrival (t, frag) = IsTime t × (frag.frame_seq < 2 ^ 32)

run-IsLogged :
    (trace : List (ℤ × Fragment)) {r : Reassembler}
    → IsValid r
    → IsLogged r
    → All IsArrival trace
    → (r' : Reassembler) × (run trace r ≡ some r') × IsLogged r'
unfolding run
run-IsLogged [] {r} v l h = (r, refl, l)
run-IsLogged ((t, frag) ∷ trace) {r} v l (h, hs) =
    let (r', e, v') = push-IsValid t frag v in
    let l' = push-IsLogged t frag v l h.0 h.1 e in
    let (q, f, w) = run-IsLogged trace v' l' hs in (q, rw (e, run) f, w)

new-IsLogged : IsLogged new
unfolding new
new-IsLogged = record { allowed = tt; newest = tt; asked = refl; in_time = tt }

-- Over any trace of fragments, in any order and however many are lost or repeated, a new
-- reassembler runs to the end, and its log is one that a decoder can follow: frames come in
-- ascending order, each frame that is no keyframe directly after the frame before it, and an IDR
-- request names the newest decoded frame and comes 250 ms after the last request or later.
-- Sequence numbers are 32-bit numbers and times are within ±2^62 ms.
pub run-IsLog :
    (trace : List (ℤ × Fragment))
    → All IsArrival trace
    → (r : Reassembler) × (run trace new ≡ some r) × IsLog start r.events
run-IsLog trace h =
    let (r, e, l) = run-IsLogged trace new-IsValid new-IsLogged h in (r, e, l.allowed)
