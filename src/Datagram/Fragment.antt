-- ===== src/Datagram/Fragment.antt =====
-- loom-proto/src/datagram.rs: what `fragment` sends.
use loom_host.Base.{ℕ, zero, suc, ◌+◌, ◌-◌, ◌*◌, ◌/◌, ◌%◌, ◌^◌, ◌≤◌, ◌<◌, max}
use loom_host.Base.{Bool, ◌≡◌, refl, ap, ◌∙◌, arith}
use loom_host.Base.{List, [], ◌∷◌, ◌++◌, length, take, drop, All, ok}
use loom_host.Base.{length-take, length-drop, take-append-drop}
use native.Mathlib.Nat.{mod-eq_of_lt}
use loom_host.Datagram.{
  DatagramHeader, new, encode, max_payload, max_datagram_len, header_len, fragment_loop,
  frag_count_of, fragment, decode_with_streams,
}
use loom_host.Datagram.RoundTrip.{IsHeader, Accepted, decode_with_streams-encode}

-- The payloads of a run of datagrams, one after another.
abbrev pub payloads : List (List ℕ) → List ℕ
payloads [] = []
payloads (d ∷ ds) = drop header_len d ++ payloads ds

-- A header built by `new` inside its bounds is well formed.
new-IsHeader :
    (keyframe : Bool) (stream_id frame_seq idx count : ℕ)
    → stream_id < 2 ^ 16
    → frame_seq < 2 ^ 32
    → count < 2 ^ 16
    → idx < count
    → IsHeader (new keyframe stream_id frame_seq idx count)
unfolding new
new-IsHeader keyframe stream_id frame_seq idx count hs hq hc hi = ground arith

length-encode : (h : DatagramHeader) (p : List ℕ) → length (encode h p) ≡ header_len + length p
unfolding encode
length-encode h p = omega arith

-- One datagram of the loop is read back, its two truncating casts included.
decode-fragment :
    (keyframe : Bool) (stream_id frame_seq idx count : ℕ) (p extra : List ℕ)
    → stream_id < 2 ^ 16
    → frame_seq < 2 ^ 32
    → count < 2 ^ 16
    → idx < count
    → Accepted extra stream_id
    → length p ≤ max_payload
    → let d = encode (new keyframe stream_id frame_seq (idx % 2 ^ 16) (count % 2 ^ 16)) p in
      decode_with_streams d extra
      ≡ ok (record {
        header = new keyframe stream_id frame_seq idx count;
        payload_len = length d - header_len;
      })
decode-fragment keyframe stream_id frame_seq idx count p extra hs hq hc hi a fits =
    let h = new keyframe stream_id frame_seq idx count in
    rw (mod-eq_of_lt {n = idx} {m = 2 ^ 16} (omega arith), mod-eq_of_lt {n = count} {m = 2 ^ 16} hc)
      (decode_with_streams-encode h p extra
          (new-IsHeader keyframe stream_id frame_seq idx count hs hq hc hi) (unfold new in a) fits
        ∙ ap (λ n. ok (record { header = h; payload_len = n })) (omega (arith, length-encode h p)))

module _ (keyframe : Bool) (stream_id frame_seq count : ℕ) where
  -- A receiver decodes the datagrams to the fragments `idx`, `idx + 1`, … of one frame.
  abbrev pub Carries : List ℕ → ℕ → List (List ℕ) → Type 0
  Carries extra idx [] = Unit
  Carries extra idx (d ∷ ds) =
      (decode_with_streams d extra
        ≡ ok (record {
          header = new keyframe stream_id frame_seq idx count;
          payload_len = length d - header_len;
        }))
      × Carries extra (idx + 1) ds

  fragment_loop-payloads :
      (left idx : ℕ) (rest : List ℕ)
      → length rest ≤ left * max_payload
      → payloads (fragment_loop keyframe stream_id frame_seq count left idx rest) ≡ rest
  unfolding fragment_loop encode
  fragment_loop-payloads zero idx [] h = refl
  fragment_loop-payloads zero idx (x ∷ rest) h = absurd (omega arith)
  fragment_loop-payloads (suc left) idx rest h =
      ap (◌++◌ (take max_payload rest)) (
        fragment_loop-payloads left (idx + 1) (drop max_payload rest)
          (omega (arith, length-drop max_payload rest)))
      ∙ take-append-drop max_payload rest

  length-fragment_loop :
      (left idx : ℕ) (rest : List ℕ)
      → length (fragment_loop keyframe stream_id frame_seq count left idx rest) ≡ left
  unfolding fragment_loop
  length-fragment_loop zero idx rest = refl
  length-fragment_loop (suc left) idx rest =
      ap suc (length-fragment_loop left (idx + 1) (drop max_payload rest))

  -- No datagram of the loop is larger than a QUIC datagram may be.
  fragment_loop-fits :
      (left idx : ℕ) (rest : List ℕ)
      → All
          (λ d. length d ≤ max_datagram_len)
          (fragment_loop keyframe stream_id frame_seq count left idx rest)
  unfolding fragment_loop encode
  fragment_loop-fits zero idx rest = tt
  fragment_loop-fits (suc left) idx rest = (
    omega (arith, length-take max_payload rest),
    fragment_loop-fits left (idx + 1) (drop max_payload rest),
  )

  fragment_loop-Carries :
      (extra : List ℕ) (left idx : ℕ) (rest : List ℕ)
      → idx + left ≡ count
      → count < 2 ^ 16
      → stream_id < 2 ^ 16
      → frame_seq < 2 ^ 32
      → Accepted extra stream_id
      → Carries extra idx (fragment_loop keyframe stream_id frame_seq count left idx rest)
  unfolding fragment_loop
  fragment_loop-Carries extra zero idx rest e hc hs hq a = tt
  fragment_loop-Carries extra (suc left) idx rest e hc hs hq a = (
    decode-fragment keyframe stream_id frame_seq idx count (take max_payload rest) extra hs hq hc
        (omega arith) a (omega (arith, length-take max_payload rest)),
    fragment_loop-Carries extra left (idx + 1) (drop max_payload rest) (omega arith) hc hs hq a,
  )

-- The datagrams of a frame are as many as its body needs, one for an empty body; none is larger
-- than 1350 bytes; and their payloads, in order, are the body.
pub fragment-payloads :
    (stream_id frame_seq : ℕ) (keyframe : Bool) (body : List ℕ)
    → let ds = fragment stream_id frame_seq keyframe body in
      (length ds ≡ max ((length body + 1337) / 1338) 1)
      × All (λ d. length d ≤ max_datagram_len) ds
      × (payloads ds ≡ body)
unfolding fragment frag_count_of
fragment-payloads stream_id frame_seq keyframe body =
    let count = frag_count_of body in
    (
      omega (arith, length-fragment_loop keyframe stream_id frame_seq count count 0 body),
      fragment_loop-fits keyframe stream_id frame_seq count count 0 body,
      fragment_loop-payloads keyframe stream_id frame_seq count count 0 body (omega arith),
    )

-- Every datagram of a frame decodes, on an accepted stream, to the header of its own place in the
-- frame: the frame's key flag, stream and sequence number, the index 0, 1, … and the common count.
-- The count must fit the 16 bits that the header has for it.
pub fragment-Carries :
    (stream_id frame_seq : ℕ) (keyframe : Bool) (body extra : List ℕ)
    → frag_count_of body < 2 ^ 16
    → stream_id < 2 ^ 16
    → frame_seq < 2 ^ 32
    → Accepted extra stream_id
    → Carries keyframe stream_id frame_seq
        (frag_count_of body)
        extra
        0
        (fragment stream_id frame_seq keyframe body)
unfolding fragment
fragment-Carries stream_id frame_seq keyframe body extra hc hs hq a =
    fragment_loop-Carries keyframe stream_id frame_seq (frag_count_of body) extra
      (frag_count_of body) 0 body (omega arith) hc hs hq a
