-- ===== src/Reassembly/Collect.antt =====
-- loom-proto/src/reassembly.rs: a frame that the window holds, as its further fragments arrive.
use loom_host.Base.{ℕ, suc, ◌+◌, ◌^◌, ◌<◌}
use loom_host.Base.{Bool, true, false, ◌≡◌, refl, ◌∙◌, ◌⊎◌, inl, inr, arith}
use loom_host.Base.{List, [], ◌∷◌, ◌++◌, length, Option, some}
use loom_host.Base.Int.{ℤ, pos, ◌<ℤ◌, ◌-ℤ◌, leb_ℤ, as_i64}
use loom_host.Base.BTreeMap.{
  remove-insert, insert-Ascends, length-insert_old, get-insert, Every-insert,
}
use loom_host.Reassembly.{
  deliver, Reassembler, Fragment, push, run, absorb, complete, finish, gate, deliver_frame,
  set_contains, set_insert, contains_key,
}
use loom_host.Reassembly.Cleanup.{finish_lem}
use loom_host.Reassembly.Push.{IsReady, joined, stored, absorb-some}

pub record Frame : Type 0 where
  pub seq : ℕ
  pub count : ℕ
  pub keyframe : Bool

abbrev pub fragment_at : Frame → ℕ → Fragment
fragment_at f i = record {
  frame_seq = f.seq;
  frag_index = i;
  frag_count = f.count;
  keyframe = f.keyframe;
}

-- The frame's fragments as they arrive: times and indices.
abbrev pub arrivals : Frame → List (ℤ × ℕ) → List (ℤ × Fragment)
arrivals f [] = []
arrivals f ((t, i) ∷ rest) = (t, fragment_at f i) ∷ arrivals f rest

-- No index comes twice, nor one that was seen.
abbrev pub Distinct : List ℕ → List (ℤ × ℕ) → Type 0
Distinct seen [] = Unit
Distinct seen ((t, i) ∷ rest) = (set_contains i seen ≡ false) × Distinct (i ∷ seen) rest

abbrev pub last_time : ℤ → List (ℤ × ℕ) → ℤ
last_time d [] = d
last_time d ((t, i) ∷ rest) = last_time t rest

-- A decoder can take the frame: it is a keyframe, or the frame before it was decoded last.
abbrev pub Decodes : Frame → Option ℤ → Type 0
Decodes f last = (f.keyframe ≡ true) ⊎ ((p : ℕ) × (last ≡ some (pos p)) × (f.seq ≡ suc p))

-- The frame is handed to the decoder, and is now the newest completed and decoded one.
pub record IsDelivered (f : Frame) (t : ℤ) (r r' : Reassembler) : Type 0 where
  pub events : r'.events ≡ r.events ++ (deliver t f.seq f.keyframe ∷ [])
  pub newest : r'.newest_complete ≡ pos f.seq
  pub decoded : r'.last_decoded ≡ some (pos f.seq)

gate_delivers :
    (f : Frame) (t : ℤ) (r : Reassembler)
    → f.seq < 2 ^ 32
    → Decodes f r.last_decoded
    → gate t f.seq f.keyframe r ≡ deliver_frame t f.seq f.keyframe r
unfolding gate as_i64 ◌-ℤ◌
gate_delivers f t r small (inl key) = ground arith
gate_delivers f t r small (inr (p, last, next)) = ground arith

complete-IsDelivered :
    (f : Frame) (t : ℤ) (r : Reassembler)
    → f.seq < 2 ^ 32
    → r.newest_complete <ℤ pos f.seq
    → Decodes f r.last_decoded
    → IsDelivered f t r (complete t f.seq f.keyframe r)
unfolding complete
complete-IsDelivered f t r small newer dec =
    let (_, new, last, events, _) = finish_lem f.seq r in
    rw (gate_delivers f t (finish f.seq r) small (rw last dec)) (
      unfold deliver_frame in
      record { events = rw events; newest = new ∙ ground arith; decoded = refl })

-- The window holds the frame with the indices seen so far.
pub record IsCollecting (f : Frame) (seen : List ℕ) (r : Reassembler) : Type 0 where
  pub ready : IsReady f.seq r
  pub have : ready.entry.have ≡ seen
  pub need : ready.entry.need ≡ f.count
  pub key : ready.entry.keyframe ≡ f.keyframe

module _ (f : Frame) (t : ℤ) (i : ℕ) where
  grown : (seen : List ℕ) → set_contains i seen ≡ false → set_insert i seen ≡ i ∷ seen
  grown seen h = rw h

  -- A new index that is not the last stays in the window.
  absorb_more :
      {seen : List ℕ} {r : Reassembler} (c : IsCollecting f seen r)
      → set_contains i seen ≡ false
      → suc (length seen) < f.count
      → (r' : Reassembler) × (absorb t (fragment_at f i) r ≡ some r')
        × IsCollecting f (i ∷ seen) r'
        × (r'.events ≡ r.events)
        × (r'.last_decoded ≡ r.last_decoded)
  absorb_more {seen} {r} c new more =
      let v = c.ready in
      let e = joined t (fragment_at f i) v.entry in
      let have' : e.have ≡ i ∷ seen = rw c.have (grown seen new) in
      (
        stored t (fragment_at f i) v.entry r,
        rw (absorb-some t (fragment_at f i) v) (rw (c.have, grown seen new, c.need) (ground arith)),
        record {
          ready = record {
            sorted = insert-Ascends 0 f.seq e r.incomplete (omega arith) v.sorted;
            room = omega (arith, length-insert_old f.seq 0 e r.incomplete v.sorted v.present);
            above =
                Every-insert (λ k e. r.newest_complete <ℤ pos k) f.seq e r.incomplete v.newer
                  v.above;
            others = rw (remove-insert f.seq 0 e r.incomplete v.sorted) v.others;
            decoded = v.decoded;
            floor = v.floor;
            newer = v.newer;
            entry = e;
            present = rw (get-insert f.seq f.seq 0 e r.incomplete v.sorted) (ground arith);
          };
          have = have';
          need = c.need;
          key = c.key;
        },
        refl,
        refl,
      )

  -- The last index completes the frame.
  absorb_last :
      {seen : List ℕ} {r : Reassembler} (c : IsCollecting f seen r)
      → set_contains i seen ≡ false
      → suc (length seen) ≡ f.count
      → f.seq < 2 ^ 32
      → Decodes f r.last_decoded
      → (r' : Reassembler) × (absorb t (fragment_at f i) r ≡ some r') × IsDelivered f t r r'
  absorb_last {seen} {r} c new last small dec =
      let v = c.ready in
      let s = stored t (fragment_at f i) v.entry r in
      let d = complete-IsDelivered f t s small v.newer dec in
      (
        complete t f.seq f.keyframe s,
        rw (absorb-some t (fragment_at f i) v)
            (rw (c.have, grown seen new, c.need, c.key) (ground arith)),
        record { events = d.events; newest = d.newest; decoded = d.decoded },
      )

pub push_collecting :
    (f : Frame) (t : ℤ) (i : ℕ) {seen : List ℕ} {r : Reassembler}
    → IsCollecting f seen r
    → push t (fragment_at f i) r ≡ absorb t (fragment_at f i) r
unfolding push
push_collecting f t i {seen} {r} c =
    let newer : leb_ℤ (pos f.seq) r.newest_complete ≡ false = ground (arith, c.ready.newer) in
    rw newer (rw (c.ready.present, contains_key))

-- The rest of the frame arrives.
pub collects :
    (f : Frame) (t : ℤ) (i : ℕ) (rest : List (ℤ × ℕ)) (seen : List ℕ) {r : Reassembler}
    → IsCollecting f seen r
    → Distinct seen ((t, i) ∷ rest)
    → length seen + suc (length rest) ≡ f.count
    → f.seq < 2 ^ 32
    → Decodes f r.last_decoded
    → (s : Reassembler) × (r' : Reassembler) × (absorb t (fragment_at f i) r ≡ some s)
      × (run (arrivals f rest) s ≡ some r')
      × IsDelivered f (last_time t rest) r r'
unfolding run
collects f t i [] seen {r} c (new, d) n small dec =
    let (r', e, ok) = absorb_last f t i c new (omega arith) small dec in (r', r', e, refl, ok)
collects f t i ((u, j) ∷ rest) seen {r} c (new, d) n small dec =
    let (s, e, c', ev, ld) = absorb_more f t i c new (omega arith) in
    let (q, r', e', run', ok) =
      collects f u j rest (i ∷ seen) c' d (omega arith) small (rw ld dec) in
    (
      s,
      r',
      e,
      rw (push_collecting f u j c' ∙ e', run) run',
      record { events = rw ev at ok.events; newest = ok.newest; decoded = ok.decoded },
    )
