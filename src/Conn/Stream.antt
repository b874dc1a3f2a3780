-- ===== src/Conn/Stream.antt =====
-- loomd/src/conn.rs: reading one control frame from a stream of bytes. `IsRecv` is what is asked of
-- the transport: it hands out the bytes of the stream in their order.
use loom_host.Base.{ℕ, ◌+◌, ◌≤◌, ◌<◌, ltb, ◌≡◌, refl, ap, sym, ◌∙◌, arith}
use loom_host.Base.{
  ◌⊎◌, inl, inr, Bool-cases, ltb→lt, Bool, true, false, List, [], ◌++◌, length, take, drop,
  take-append,
}
use loom_host.Base.{drop-append, length-append, length-drop, ok}
use loom_host.Base.Bytes.{be32, from_be32-be32}
use loom_host.Control.{max_frame_body}
use loom_host.Conn.{
  ReadExact, got, finished_early, lost, frame, eof, read_frame, prefix_len, read_body_of,
}

-- A stream has bytes still to come, and then ends well or is lost.
pub record IsRecv {R : Type 0} (read_exact : ℕ → R → ReadExact × R) (content : R → List ℕ)
    (ends : R → Bool) : Type 0 where
  pub reads :
      (n : ℕ) (r : R)
      → n ≤ length (content r)
      → ((read_exact n r).0 ≡ got (take n (content r)))
        × (content (read_exact n r).1 ≡ drop n (content r))
        × (ends (read_exact n r).1 ≡ ends r)
  pub short :
      (n : ℕ) (r : R)
      → length (content r) < n
      → ends r ≡ true
      → (read_exact n r).0 ≡ finished_early (length (content r))
  pub breaks : (n : ℕ) (r : R) → length (content r) < n → ends r ≡ false → (read_exact n r).0 ≡ lost

ReadExact-cases :
    (x : ReadExact)
    → ((b : List ℕ) × (x ≡ got b)) ⊎ (((k : ℕ) × (x ≡ finished_early k)) ⊎ (x ≡ lost))
ReadExact-cases (got b) = inl (b, refl)
ReadExact-cases (finished_early k) = inr (inl (k, refl))
ReadExact-cases lost = inr (inr refl)

-- A length of 4 bytes, and as many bytes of body, within the limit.
abbrev pub framed : List ℕ → List ℕ
framed body = be32 (length body) ++ body

module _ {R : Type 0} (read_exact : ℕ → R → ReadExact × R) (content : R → List ℕ) (ends : R → Bool)
    (recv : IsRecv read_exact content ends) where
  read_body_got :
      (len_buf body : List ℕ) (r : R)
      → (read_exact (prefix_len len_buf) r).0 ≡ got body
      → read_body_of read_exact len_buf r
        ≡ (ok (frame (len_buf ++ body)), (read_exact (prefix_len len_buf) r).1)
  read_body_got len_buf body r e = rw (read_body_of, e) refl

  read_body_lem :
      (len_buf body : List ℕ) (n : ℕ) (r : R)
      → prefix_len len_buf ≡ n
      → (read_exact n r).0 ≡ got body
      → read_body_of read_exact len_buf r ≡ (ok (frame (len_buf ++ body)), (read_exact n r).1)
  read_body_lem len_buf body n r size e =
      read_body_got len_buf body r (ap (λ k. (read_exact k r).0) size ∙ e)
      ∙ ap (λ k. (ok (frame (len_buf ++ body)), (read_exact k r).1)) size

  read_frame_got :
      (len_buf : List ℕ) (r : R)
      → (read_exact 4 r).0 ≡ got len_buf
      → ltb max_frame_body (prefix_len len_buf) ≡ false
      → read_frame read_exact r ≡ read_body_of read_exact len_buf (read_exact 4 r).1
  unfolding read_frame
  read_frame_got len_buf r e small = rw (read_frame, e, small) refl

  -- A frame that is whole is read whole, and what follows it stays.
  pub read_frame-framed :
      (body rest : List ℕ) (r : R)
      → length body ≤ max_frame_body
      → content r ≡ framed body ++ rest
      → (r' : R) × (read_frame read_exact r ≡ (ok (frame (framed body)), r'))
        × (content r' ≡ rest)
        × (ends r' ≡ ends r)
  unfolding read_frame
  read_frame-framed body rest r h e =
      let n = length body in
      let head : List ℕ = be32 n in
      let whole : content r ≡ head ++ body ++ rest = e in
      let len : 4 ≤ length (content r) = rw whole (omega arith) in
      let (g, c, k) = recv.reads 4 r len in
      let first : (read_exact 4 r).0 ≡ got head = g ∙ ap (λ l. got (take 4 l)) whole in
      let left : content (read_exact 4 r).1 ≡ body ++ rest = c ∙ ap (drop 4) whole in
      let r1 = (read_exact 4 r).1 in
      let size : prefix_len head ≡ n = from_be32-be32 n (omega arith) in
      let enough : n ≤ length (content r1) = rw left (omega (arith, length-append body rest)) in
      let (g2, c2, k2) = recv.reads n r1 enough in
      let second : (read_exact n r1).0 ≡ got body =
        g2 ∙ ap (λ l. got (take n l)) left ∙ ap got (take-append body rest) in
      (
        (read_exact n r1).1,
        read_frame_got head r first (rw size (ground arith))
            ∙ read_body_lem head body n r1 size second,
        c2 ∙ ap (drop n) left ∙ drop-append body rest,
        k2 ∙ k,
      )

  -- The end of the stream between two frames is no error.
  pub read_frame-eof :
      (r : R) → content r ≡ [] → ends r ≡ true → (read_frame read_exact r).0 ≡ ok eof
  unfolding read_frame
  read_frame-eof r e h =
      let none_left : length (content r) ≡ 0 = ap length e in
      let k = recv.short 4 r (omega (arith, none_left)) h in ground (arith, k, none_left)

  -- A read that gives bytes finds them in the stream and takes them.
  reads_inv :
      (n : ℕ) (r : R) (b : List ℕ)
      → (read_exact n r).0 ≡ got b
      → length (content (read_exact n r).1) + n ≡ length (content r)
  reads_inv n r b e = elim (Bool-cases (ltb (length (content r)) n)) [
    | inr enough ↦
        let (g, c, k) = recv.reads n r (ground arith) in
        let le : n ≤ length (content r) = ground arith in
        omega (arith, ap length c, length-drop n (content r))
    | inl few ↦ elim (Bool-cases (ends r)) [
      | inl well ↦ let k = recv.short n r (ltb→lt _ _ few) well in cc
      | inr not_well ↦ let k = recv.breaks n r (ltb→lt _ _ few) not_well in cc
    ]
  ]

  read_body_shrinks :
      (len_buf bytes : List ℕ) (r r' : R)
      → read_body_of read_exact len_buf r ≡ (ok (frame bytes), r')
      → length (content r') ≤ length (content r)
  read_body_shrinks len_buf bytes r r' h =
      elim (ReadExact-cases (read_exact (prefix_len len_buf) r).0) [
        | inl (b, e) ↦
            let took = reads_inv (prefix_len len_buf) r b e in
            let out : r' ≡ (read_exact (prefix_len len_buf) r).1 = cc in
            rw out (omega (arith, took))
        | inr (inl (k, e)) ↦ cc
        | inr (inr e) ↦ cc
      ]

  -- Whatever is read as a frame took 4 bytes of the stream at least.
  pub read_frame-shrinks :
      (r r' : R) (bytes : List ℕ)
      → read_frame read_exact r ≡ (ok (frame bytes), r')
      → length (content r') < length (content r)
  unfolding read_frame
  read_frame-shrinks r r' bytes h = elim (ReadExact-cases (read_exact 4 r).0) [
    | inl (b, e) ↦
        let took = reads_inv 4 r b e in
        elim (Bool-cases (ltb max_frame_body (prefix_len b))) [
          | inl big ↦ ground arith
          | inr small ↦
              let left =
                read_body_shrinks b bytes (read_exact 4 r).1 r'
                  (sym (read_frame_got b r e small) ∙ h) in
              omega (arith, took, left)
        ]
    | inr (inl (k, e)) ↦ ground arith
    | inr (inr e) ↦ cc
  ]
