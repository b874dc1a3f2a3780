-- ===== src/Reassembly/Events.antt =====
-- loom-proto/src/reassembly.rs: every log that the reassembler writes is one that Log allows.
use loom_host.Base.{ℕ, ◌^◌, ◌<◌}
use loom_host.Base.{Bool-cases}
use loom_host.Base.{Bool, true, false, ◌≡◌, refl, subst, arith, inl, inr}
use loom_host.Base.{Option, none, some}
use loom_host.Base.Int.{ℤ, pos, pos_part, neg_part, ◌<ℤ◌, ◌+ℤ◌, ◌-ℤ◌, as_i64, as_u32}
use loom_host.Reassembly.{
  deliver, idr_request, Reassembler, complete, finish, gate, maybe_idr, count_gap, deliver_frame,
  limited, is_some_eq, unwrap_or,
}
use loom_host.Reassembly.Cleanup.{finish_lem}
use loom_host.Reassembly.Invariant.{NoneAbove}
use loom_host.Reassembly.Log.{
  start, Newer, Next, Spaced, or_zero, Allowed, IsLog, view, view-append, IsLog-append,
}

-- Times of arrival within ±2^62 ms, so that no difference of two leaves `i64`.
abbrev pub IsTime : ℤ → Type 0
IsTime t = (pos_part t < 2 ^ 62) × (neg_part t < 2 ^ 62)

abbrev pub IsAsked : Option ℤ → Type 0
IsAsked none = Unit
IsAsked (some t) = IsTime t

-- `last_decoded` as the log shows it.
abbrev pub Matches : Option ℤ → Option ℕ → Type 0
Matches none none = Unit
Matches (some z) (some p) = (z ≡ pos p) × (p < 2 ^ 32)
Matches _ _ = ⊥

-- The fields of the reassembler say what its log shows, and the log is allowed.
pub record IsLogged (r : Reassembler) : Type 0 where
  pub allowed : IsLog start r.events
  pub newest : Matches r.last_decoded (view start r.events).newest
  pub asked : r.idr_last_t ≡ (view start r.events).asked
  pub in_time : IsAsked r.idr_last_t

-- A step that writes no event keeps the log.
pub record SameLog (r s : Reassembler) : Type 0 where
  pub events : s.events ≡ r.events
  pub last_decoded : s.last_decoded ≡ r.last_decoded
  pub idr_last_t : s.idr_last_t ≡ r.idr_last_t
  pub newest_complete : s.newest_complete ≡ r.newest_complete

pub same_log : (r : Reassembler) → SameLog r r
same_log r = record {
  events = refl;
  last_decoded = refl;
  idr_last_t = refl;
  newest_complete = refl;
}

pub IsLogged-same :
    {r : Reassembler} (s : Reassembler)
    → IsLogged r
    → s.events ≡ r.events
    → s.last_decoded ≡ r.last_decoded
    → s.idr_last_t ≡ r.idr_last_t
    → IsLogged s
IsLogged-same s v e d i = record {
  allowed = rw e v.allowed;
  newest = rw (e, d) v.newest;
  asked = rw (e, i) v.asked;
  in_time = rw i v.in_time;
}

count_gap-IsLogged : {r : Reassembler} → IsLogged r → IsLogged (count_gap r)
unfolding count_gap
count_gap-IsLogged {r} v = IsLogged-same (count_gap r) v refl refl refl

deliver-IsLogged :
    (t : ℤ) (seq : ℕ) (key : Bool) {r : Reassembler}
    → IsLogged r
    → seq < 2 ^ 32
    → Allowed (view start r.events) (deliver t seq key)
    → IsLogged (deliver_frame t seq key r)
unfolding deliver_frame
deliver-IsLogged t seq key {r} v small a = record {
  allowed = IsLog-append start r.events (deliver t seq key) v.allowed a;
  newest = rw (view-append start r.events (deliver t seq key)) (refl, small);
  asked = rw (view-append start r.events (deliver t seq key)) (v.asked);
  in_time = v.in_time;
}

last_good : (o : Option ℤ) (n : Option ℕ) → Matches o n → as_u32 (unwrap_or o (pos 0)) ≡ or_zero n
unfolding as_u32
last_good none none m = refl
last_good none (some p) m = absurd m
last_good (some z) none m = absurd m
last_good (some z) (some p) m = rw (m.0) (omega arith)

limited-Spaced : (t : ℤ) (o : Option ℤ) → IsTime t → IsAsked o → limited t o ≡ false → Spaced o t
unfolding limited ◌-ℤ◌ ◌+ℤ◌ as_i64
limited-Spaced t none ht ho e = tt
limited-Spaced t (some l) ht ho e = ground arith

maybe_idr-IsLogged : (t : ℤ) {r : Reassembler} → IsLogged r → IsTime t → IsLogged (maybe_idr t r)
unfolding maybe_idr
maybe_idr-IsLogged t {r} v ht = elim (Bool-cases (limited t r.idr_last_t)) [
  | inl soon ↦ rw soon v
  | inr late ↦
      let g = as_u32 (unwrap_or r.last_decoded (pos 0)) in
      let fair : Spaced (view start r.events).asked t =
        subst (λ o. Spaced o t) v.asked (limited-Spaced t r.idr_last_t ht v.in_time late) in
      rw late (record {
        allowed =
            IsLog-append start r.events (idr_request t g) v.allowed
              (last_good r.last_decoded (view start r.events).newest v.newest, fair);
        newest = rw (view-append start r.events (idr_request t g)) v.newest;
        asked = rw (view-append start r.events (idr_request t g)) refl;
        in_time = ht;
      })
]

-- The newest decoded frame is older than `seq`.
abbrev Older : Option ℤ → ℕ → Type 0
Older none seq = Unit
Older (some d) seq = d <ℤ pos seq

Older-Newer : (o : Option ℤ) (n : Option ℕ) (seq : ℕ) → Matches o n → Older o seq → Newer n seq
Older-Newer none none seq m h = tt
Older-Newer none (some p) seq m h = absurd m
Older-Newer (some z) none seq m h = absurd m
Older-Newer (some z) (some p) seq m h = ground arith

-- The gate's test against `last_decoded` finds the frame just before.
follows-Next :
    (o : Option ℤ) (n : Option ℕ) (seq : ℕ)
    → Matches o n
    → seq < 2 ^ 32
    → is_some_eq o (as_i64 (pos seq -ℤ pos 1)) ≡ true
    → Next n seq
unfolding as_i64 ◌-ℤ◌
follows-Next none n seq m h e = cc
follows-Next (some z) none seq m h e = absurd m
follows-Next (some z) (some p) seq m h e = (p, refl, ground arith)

gate-IsLogged :
    (t : ℤ) (seq : ℕ) (key : Bool) {r : Reassembler}
    → IsLogged r
    → IsTime t
    → seq < 2 ^ 32
    → Older r.last_decoded seq
    → IsLogged (gate t seq key r)
unfolding gate
gate-IsLogged t seq true {r} v ht small old =
    deliver-IsLogged t seq true v small
      (Older-Newer r.last_decoded (view start r.events).newest seq v.newest old)
gate-IsLogged t seq false {r} v ht small old =
    elim (Bool-cases (is_some_eq r.last_decoded (as_i64 (pos seq -ℤ pos 1)))) [
      | inl next ↦ rw next (
          deliver-IsLogged t seq false v small
            (follows-Next r.last_decoded (view start r.events).newest seq v.newest small next))
      | inr gap ↦ rw gap (maybe_idr-IsLogged t (count_gap-IsLogged v) ht)
    ]

-- Completing frame `seq`, when no frame from `seq` on has been completed.
pub complete-IsLogged :
    (t : ℤ) (seq : ℕ) (key : Bool) {r : Reassembler}
    → IsLogged r
    → IsTime t
    → seq < 2 ^ 32
    → NoneAbove r.last_decoded r.newest_complete
    → r.newest_complete <ℤ pos seq
    → IsLogged (complete t seq key r)
unfolding complete
complete-IsLogged t seq key {r} v ht small dec newer =
    let (_, _, last, events, idr) = finish_lem seq r in
    gate-IsLogged t seq key (IsLogged-same (finish seq r) v events last idr) ht small
      (rw last (older r.last_decoded dec))
  where
    older : (o : Option ℤ) → NoneAbove o r.newest_complete → Older o seq
    older none h = tt
    older (some d) h = omega arith
