-- ===== src/Transfer/Blocks.antt =====
-- wl2k.c: the parts of a message, as putcompressed writes and getcompressed reads them.
use paclink_unix.Common.{
  ℕ, zero, suc, ◌+◌, ◌-◌, ◌%◌, ◌^◌, ◌≤◌, ◌<◌, ◌≡◌, refl, ap, subst, ◌∙◌, inl, inr, true, false,
  List, [], ◌∷◌, ◌++◌, append_assoc, arith, ltb, ◌==◌, if◌then◌else◌, Bool-cases, ltb→lt, All,
  length, take, drop, length-append, length-take, take-append, length-drop, take-append-drop,
  length_zero, drop-append,
}
use paclink_unix.Common.Int.{ℤ, pos, negsuc, pred_ℤ, suc_ℤ}
use paclink_unix.Buffer.{Memory, Buffer, addchar}
use paclink_unix.Buffer.Contents.{IsValid}
use paclink_unix.Buffer.Write.{
  Appends, Appends-refl, Appends-trans, addchar-Appends, addchar_grants,
}
use paclink_unix.Stream.{ok}
use paclink_unix.Transfer.{
  read_field, keep, read_chunk, read_chunks, read_end, put_chunks, chunk_size, chrstx, chreot, sum,
  complement,
}

suc-pred : (z : ℤ) → suc_ℤ (pred_ℤ z) ≡ z
suc-pred (pos zero) = refl
suc-pred (pos (suc n)) = refl
suc-pred (negsuc n) = refl

pred-pos : (j k : ℕ) → j ≡ k + 1 → pred_ℤ (pos j) ≡ pos k
pred-pos zero k e = absurd (omega arith)
pred-pos (suc j) k e = ap pos (omega arith)

-- A field that ends in a NUL is read as it stands, and the counter falls by its length.
pub read_field_text :
    (n j k : ℕ) (title s : List ℕ)
    → All (λ c. 0 < c) title
    → length title ≤ n
    → j ≡ k + length title
    → read_field n (pos j) (title ++ 0 ∷ s) ≡ ok (title, pos k) (0 ∷ s)
unfolding read_field
read_field_text zero j k [] s h l e = ap (λ (q : ℕ). ok ([], pos q) (0 ∷ s)) (omega arith)
read_field_text (suc n) j k [] s h l e =
    rw suc-pred (ap (λ (q : ℕ). ok ([], pos q) (0 ∷ s)) (omega arith))
read_field_text zero j k (c ∷ title) s h l e = elim l [ ]
read_field_text (suc n) j k (c ∷ title) s h l e =
    let other : (c == 0) ≡ false = ground arith in
    rw (
      other,
      pred-pos j (k + length title) (omega arith),
      read_field_text n (k + length title) k title s h.1 (omega arith) refl,
    )

module _ (m : Memory) (all : (n : ℕ) → m.grants n ≡ true) where
  read_chunk_bytes :
      (xs s : List ℕ) (b : Buffer) (cksum : ℕ)
      → IsValid b
      → b.dlen + length xs < 2 ^ 32
      → (b' : Buffer) × (read_chunk m (length xs) b (cksum % 256) (xs ++ s)
          ≡ ok (b', (cksum + sum xs) % 256) s)
        × Appends b xs b'
  unfolding read_chunk keep
  read_chunk_bytes [] s b cksum v h = (b, ap (λ (q : ℕ). ok (b, q) s) (omega arith), Appends-refl v)
  read_chunk_bytes (x ∷ xs) s b cksum v h =
      let one = addchar-Appends m all b x v (omega arith) in
      let (b', run, more) =
        read_chunk_bytes xs s (addchar m b x).1 (cksum + x) one.valid (omega (arith, one.size)) in
      let c₁ : (cksum % 256 + x) % 256 ≡ (cksum + x) % 256 = omega arith in
      let c₂ : (cksum + x + sum xs) % 256 ≡ (cksum + (x + sum xs)) % 256 = omega arith in
      (b', rw (addchar_grants m b x all, c₁, run, c₂), Appends-trans (x ∷ []) xs one more)

  -- A block of one to 255 bytes goes to the buffer whole.
  block_read :
      (xs s : List ℕ) (fuel : ℕ) (b : Buffer) (cksum : ℕ)
      → IsValid b
      → b.dlen + length xs < 2 ^ 32
      → 0 < length xs
      → (b' : Buffer) × (read_chunks m (suc fuel) b (cksum % 256) (chrstx ∷ length xs ∷ (xs ++ s))
          ≡ read_chunks m fuel b' ((cksum + sum xs) % 256) s)
        × Appends b xs b'
  unfolding read_chunks
  block_read xs s fuel b cksum v h k =
      let (b', run, more) = read_chunk_bytes xs s b cksum v h in
      let counted : (length xs == 0) ≡ false = ground arith in (b', rw (counted, run), more)

  end_read :
      (s : List ℕ) (fuel : ℕ) (b : Buffer) (cksum : ℕ)
      → read_chunks m (suc fuel) b (cksum % 256) (chreot ∷ complement cksum ∷ s) ≡ ok b s
  unfolding read_chunks read_end
  end_read s fuel b cksum =
      let even : ((cksum % 256 + complement cksum) % 256 == 0) ≡ true = ground arith in rw even

-- The number of bytes of the next block, for `rem` bytes to send.
abbrev pub msglen : ℕ → ℕ
msglen rem = if ltb chunk_size rem then chunk_size else rem % 256

msglen_bounds : (rem : ℕ) → 0 < rem → (0 < msglen rem) × (msglen rem ≤ 250) × (msglen rem ≤ rem)
msglen_bounds rem h = ground arith

-- What stands behind the bytes to send does not matter.
pub put_chunks-append :
    (fuel : ℕ) (cp junk : List ℕ) (rem cksum : ℕ)
    → rem ≤ length cp
    → put_chunks fuel (cp ++ junk) rem cksum ≡ put_chunks fuel cp rem cksum
unfolding put_chunks
put_chunks-append zero cp junk rem cksum h = refl
put_chunks-append (suc fuel) cp junk rem cksum h = elim (Bool-cases (ltb 0 rem)) [
  | inl more ↦
      let n = msglen rem in
      let (_, _, hi) = msglen_bounds rem (ltb→lt 0 rem more) in
      let front : take n (cp ++ junk) ≡ take n cp = take-append n cp junk (omega arith) in
      let back : drop n (cp ++ junk) ≡ drop n cp ++ junk = drop-append n cp junk (omega arith) in
      let rest =
        put_chunks-append fuel (drop n cp) junk (rem - n) (cksum + sum (take n cp))
          (omega (arith, length-drop n cp)) in
      rw (more, front, back, put_chunks) (rw rest)
  | inr done ↦ rw done
]

pub put_chunks-length :
    (fuel : ℕ) (cp : List ℕ) (rem cksum : ℕ)
    → length cp ≡ rem
    → rem ≤ fuel
    → rem ≤ length (put_chunks fuel cp rem cksum).0
unfolding put_chunks
put_chunks-length zero cp rem cksum e h = omega arith
put_chunks-length (suc fuel) cp rem cksum e h = elim (Bool-cases (ltb 0 rem)) [
  | inl more ↦
      let n = msglen rem in
      let (lo, _, hi) = msglen_bounds rem (ltb→lt 0 rem more) in
      let rest =
        put_chunks-length fuel (drop n cp) (rem - n) (cksum + sum (take n cp))
          (omega (arith, length-drop n cp)) (omega arith) in
      rw more (
        omega (
          arith,
          rest,
          length-append (take n cp)
              (put_chunks fuel (drop n cp) (rem - n) (cksum + sum (take n cp))).0,
          length-take n cp (omega arith),
        ))
  | inr last ↦ rw last (ground arith)
]

module _ (m : Memory) (all : (n : ℕ) → m.grants n ≡ true) where
  -- The blocks that the sender makes of `cp`, and its checksum, are read back as `cp`.
  pub read_chunks-put_chunks :
      (fuel fuel' : ℕ) (cp : List ℕ) (rem cksum : ℕ) (b : Buffer) (s : List ℕ)
      → length cp ≡ rem
      → rem ≤ fuel
      → rem < fuel'
      → IsValid b
      → b.dlen + rem < 2 ^ 32
      → (b' : Buffer) × (read_chunks m fuel' b (cksum % 256) (
            (put_chunks fuel cp rem cksum).0
            ++ chreot ∷ complement (put_chunks fuel cp rem cksum).1 ∷ s)
          ≡ ok b' s)
        × Appends b cp b'
  unfolding put_chunks
  read_chunks-put_chunks fuel zero cp rem cksum b s e h k v l = elim k [ ]
  read_chunks-put_chunks zero (suc fuel') [] rem cksum b s e h k v l =
      (b, end_read m all s fuel' b cksum, Appends-refl v)
  read_chunks-put_chunks zero (suc fuel') (x ∷ xs) rem cksum b s e h k v l = absurd (omega arith)
  read_chunks-put_chunks (suc fuel) (suc fuel') cp rem cksum b s e h k v l =
      elim (Bool-cases (ltb 0 rem)) [
        | inl more ↦
            let n = msglen rem in
            let (lo, _, hi) = msglen_bounds rem (ltb→lt 0 rem more) in
            let front : length (take n cp) ≡ n = length-take n cp (omega arith) in
            let (out, total) = put_chunks fuel (drop n cp) (rem - n) (cksum + sum (take n cp)) in
            let (b₁, block, one) =
              block_read m all (take n cp) (out ++ chreot ∷ complement total ∷ s) fuel' b cksum v
                (omega arith) (omega arith) in
            let (b₂, run, rest) =
              read_chunks-put_chunks fuel fuel' (drop n cp) (rem - n) (cksum + sum (take n cp)) b₁ s
                (omega (arith, length-drop n cp)) (omega arith) (omega arith) one.valid
                (omega (arith, one.size)) in
            (
              b₂,
              rw more (rw append_assoc (rw front at block ∙ run)),
              subst (λ xs. Appends b xs b₂) (take-append-drop n cp)
                  (Appends-trans (take n cp) (drop n cp) one rest),
            )
        | inr last ↦ (
          b,
          rw last (end_read m all s fuel' b cksum),
          rw (length_zero cp (ground arith)) (Appends-refl v),
        )
      ]
