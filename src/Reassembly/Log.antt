-- ===== src/Reassembly/Log.antt =====
-- loom-proto/src/reassembly.rs: what a decoder behind the reassembler may be shown. This is the
-- contract of PROTOCOL.md §6 rule 3 and §3.6, said of the event log alone.
use loom_host.Base.{ℕ, suc, ◌<◌, true, false, ◌≡◌, refl}
use loom_host.Base.{Option, none, some, List, [], ◌∷◌, ◌++◌}
use loom_host.Base.Int.{ℤ, pos, ◌≤ℤ◌, ◌+ℤ◌}
use loom_host.Reassembly.{Event, deliver, idr_request}

-- What the log so far shows: the newest decoded frame, and the time of the last IDR request.
pub record View : Type 0 where
  pub newest : Option ℕ
  pub asked : Option ℤ

abbrev pub start : View
start = record { newest = none; asked = none }

-- Frames are decoded in ascending order.
abbrev pub Newer : Option ℕ → ℕ → Type 0
Newer none s = Unit
Newer (some p) s = p < s

-- A frame that is no keyframe needs the very frame before it.
abbrev pub Next : Option ℕ → ℕ → Type 0
Next o s = (p : ℕ) × (o ≡ some p) × (s ≡ suc p)

abbrev pub or_zero : Option ℕ → ℕ
or_zero none = 0
or_zero (some p) = p

-- Two IDR requests are 250 ms apart at least.
abbrev pub Spaced : Option ℤ → ℤ → Type 0
Spaced none t = Unit
Spaced (some l) t = l +ℤ pos 250 ≤ℤ t

abbrev pub Allowed : View → Event → Type 0
Allowed v (deliver t s true) = Newer v.newest s
Allowed v (deliver t s false) = Next v.newest s
Allowed v (idr_request t g) = (g ≡ or_zero v.newest) × Spaced v.asked t

abbrev pub after : View → Event → View
after v (deliver t s k) = record v { newest = some s }
after v (idr_request t g) = record v { asked = some t }

abbrev pub IsLog : View → List Event → Type 0
IsLog v [] = Unit
IsLog v (e ∷ es) = Allowed v e × IsLog (after v e) es

abbrev pub view : View → List Event → View
view v [] = v
view v (e ∷ es) = view (after v e) es

pub view-append :
    (v : View) (es : List Event) (e : Event) → view v (es ++ (e ∷ [])) ≡ after (view v es) e
view-append v [] e = refl
view-append v (d ∷ es) e = view-append (after v d) es e

pub IsLog-append :
    (v : View) (es : List Event) (e : Event)
    → IsLog v es
    → Allowed (view v es) e
    → IsLog v (es ++ (e ∷ []))
IsLog-append v [] e h a = (a, tt)
IsLog-append v (d ∷ es) e h a = (h.0, IsLog-append (after v d) es e h.1 a)
