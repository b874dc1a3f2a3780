-- ===== src/Media/Numbering.antt =====
-- loomd/src/media/mod.rs: the numbers of a thread's frames, and what its datagrams say.
use loom_host.Base.{ℕ, ◌≡◌, arith}
use loom_host.Base.{Bool, Option, none, some, List, [], ◌∷◌}
use loom_host.Media.{
  Tick, MediaThread, Action, open_encoder, encode, frame_sent, next_seq, on_encoded, produce,
}

-- Frames are encoded and sent under one number each, which the next frame's follows.
abbrev pub Numbered : ℕ → List Action → Type 0
Numbered n [] = Unit
Numbered n (open_encoder c ∷ acts) = Numbered n acts
Numbered n (encode seq force ∷ acts) = (seq ≡ n) × Numbered n acts
Numbered n (frame_sent seq key sent ∷ acts) = (seq ≡ n) × Numbered (next_seq n) acts

abbrev pub number_after : ℕ → List Action → ℕ
number_after n [] = n
number_after n (open_encoder c ∷ acts) = number_after n acts
number_after n (encode seq force ∷ acts) = number_after n acts
number_after n (frame_sent seq key sent ∷ acts) = number_after (next_seq n) acts

-- A round that goes on leaves the number that its actions lead to.
abbrev Goes : ℕ → Option MediaThread × List Action → Type 0
Goes n (none, acts) = Numbered n acts
Goes n (some m, acts) = Numbered n acts × (m.frame_seq ≡ number_after n acts)

on_encoded-Goes : (t : Tick) (m : MediaThread) → Goes m.frame_seq (on_encoded t m)
unfolding on_encoded
on_encoded-Goes t m = ground arith

produce-Goes : (force : Bool) (t : Tick) (m : MediaThread) → Goes m.frame_seq (produce force t m)
unfolding produce on_encoded
produce-Goes force t m = ground arith
