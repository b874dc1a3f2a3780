-- ===== src/Transport.antt =====
-- loom-proto/src/datagram.rs with loom-proto/src/reassembly.rs: a frame from the sender's cut to
-- the receiver's decoder.
mod Tests
use loom_host.Base.{
  ℕ, zero, suc, ◌+◌, ◌^◌, ◌≤◌, ◌<◌, ltb, ◌==◌, ◌||◌, any, if◌then◌else◌, ◌≡◌, refl, ap, sym, subst,
  ◌∙◌, arith, Bool, true, false,
}
use loom_host.Base.{Option, some, List, [], ◌∷◌, length, ok, err, All}
use loom_host.Base.Int.{ℤ, pos, ◌<ℤ◌}
use loom_host.Datagram.{
  DatagramHeader, DecodedDatagram, new, fragment, frag_count_of, div_ceil, decode_with_streams,
}
use loom_host.Datagram.RoundTrip.{Accepted}
use loom_host.Datagram.Fragment.{Carries, fragment-Carries, fragment-payloads}
use loom_host.Reassembly.{Fragment, Reassembler, run, set_contains}
use loom_host.Reassembly.Invariant.{IsValid}
use loom_host.Reassembly.Collect.{
  Frame, fragment_at, arrivals, Distinct, last_time, Decodes, IsDelivered,
}
use loom_host.Reassembly.Delivery.{HasRoom, run-IsDelivered}

-- What a header says to the reassembler.
abbrev pub fragment_of : DatagramHeader → Fragment
fragment_of h = record {
  frame_seq = h.frame_seq;
  frag_index = h.frag_index;
  frag_count = h.frag_count;
  keyframe = h.keyframe;
}

-- Datagrams with their arrival times: those that decode become fragments, the others are dropped.
unfoldable pub receive : List ℕ → List (ℤ × List ℕ) → List (ℤ × Fragment)
receive extra [] = []
receive extra ((t, dg) ∷ dgs) = elim (decode_with_streams dg extra) [
  | ok d ↦ (t, fragment_of d.header) ∷ receive extra dgs
  | err e ↦ receive extra dgs
]

-- One time for each datagram.
abbrev pub timed : List ℤ → List (List ℕ) → List (ℤ × List ℕ)
timed [] dgs = []
timed (t ∷ ts) [] = []
timed (t ∷ ts) (dg ∷ dgs) = (t, dg) ∷ timed ts dgs

-- The indices from `i` on, each with its time.
abbrev pub indexed : ℕ → List ℤ → List (ℤ × ℕ)
indexed i [] = []
indexed i (t ∷ ts) = (t, i) ∷ indexed (i + 1) ts

length-indexed : (i : ℕ) (ts : List ℤ) → length (indexed i ts) ≡ length ts
length-indexed i [] = refl
length-indexed i (t ∷ ts) = ap suc (length-indexed (i + 1) ts)

fresh_index : (i : ℕ) (seen : List ℕ) → All (λ j. j < i) seen → set_contains i seen ≡ false
fresh_index i [] h = refl
fresh_index i (j ∷ seen) (h, hs) = ground (arith, fresh_index i seen hs)

All-weaken : (i : ℕ) (seen : List ℕ) → All (λ j. j < i) seen → All (λ j. j < i + 1) seen
All-weaken i [] h = tt
All-weaken i (j ∷ seen) (h, hs) = (omega arith, All-weaken i seen hs)

indexed-Distinct :
    (i : ℕ) (ts : List ℤ) (seen : List ℕ) → All (λ j. j < i) seen → Distinct seen (indexed i ts)
indexed-Distinct i [] seen h = tt
indexed-Distinct i (t ∷ ts) seen h = (
  fresh_index i seen h,
  indexed-Distinct (i + 1) ts (i ∷ seen) (omega arith, All-weaken i seen h),
)

module _ (stream_id seq : ℕ) (keyframe : Bool) (count : ℕ) where
  abbrev frame : Frame
  frame = record { seq = seq; count = count; keyframe = keyframe }

  -- What is received of a frame's datagrams.
  receive-Carries :
      (extra : List ℕ) (i : ℕ) (ts : List ℤ) (dgs : List (List ℕ))
      → Carries keyframe stream_id seq count extra i dgs
      → length ts ≡ length dgs
      → receive extra (timed ts dgs) ≡ arrivals frame (indexed i ts)
  unfolding receive new
  receive-Carries extra i [] dgs c e = refl
  receive-Carries extra i (t ∷ ts) [] c e = absurd (omega arith)
  receive-Carries extra i (t ∷ ts) (dg ∷ dgs) (c, cs) e =
      rw (receive, c)
        (ap (◌∷◌ (t, fragment_at frame i)) (receive-Carries extra (i + 1) ts dgs cs (omega arith)))

count_lem :
    (stream_id seq : ℕ) (keyframe : Bool) (body : List ℕ)
    → frag_count_of body ≡ length (fragment stream_id seq keyframe body)
unfolding frag_count_of div_ceil
count_lem stream_id seq keyframe body =
    omega (arith, (fragment-payloads stream_id seq keyframe body).0)

-- A frame that is cut into datagrams, none of them lost and each received in its turn with no other
-- between, reaches the decoder whole: a valid reassembler, whose window has room for the frame,
-- hands it over when its last datagram arrives. The frame must be newer than every completed one
-- and such that the decoder can take it, the stream an accepted one, and the fragment count and
-- the sequence number within the 16 and 32 bits of the header.
pub run-receive-fragment :
    (stream_id seq : ℕ) (keyframe : Bool) (body extra : List ℕ) (t : ℤ) (ts : List ℤ)
    {r : Reassembler}
    → frag_count_of body < 2 ^ 16
    → stream_id < 2 ^ 16
    → seq < 2 ^ 32
    → Accepted extra stream_id
    → length (t ∷ ts) ≡ frag_count_of body
    → IsValid r
    → r.newest_complete <ℤ pos seq
    → HasRoom (frame stream_id seq keyframe (frag_count_of body)) r
    → Decodes (frame stream_id seq keyframe (frag_count_of body)) r.last_decoded
    → (r' : Reassembler) × (run
          (receive extra (timed (t ∷ ts) (fragment stream_id seq keyframe body)))
          r
        ≡ some r')
      × IsDelivered
          (frame stream_id seq keyframe (frag_count_of body))
          (last_time t (indexed 1 ts))
          r
          r'
run-receive-fragment stream_id seq keyframe body extra t ts {r} hc hs hq a n v newer room dec =
    let count = frag_count_of body in
    let dgs = fragment stream_id seq keyframe body in
    let carries = fragment-Carries stream_id seq keyframe body extra hc hs hq a in
    let received =
      receive-Carries stream_id seq keyframe count extra 0 (t ∷ ts) dgs carries
        (n ∙ count_lem stream_id seq keyframe body) in
    let (r', e, delivered) =
      run-IsDelivered (frame stream_id seq keyframe count) t 0 (indexed 1 ts) v newer room
        (indexed-Distinct 0 (t ∷ ts) [] tt) (ap suc (length-indexed 1 ts) ∙ n) hq dec in
    (r', ap (λ xs. run xs r) received ∙ e, delivered)
