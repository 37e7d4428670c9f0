-- ===== src/Buffer/Copy.antt =====
-- buffer.c: buffer_addbuf.
use paclink_unix.Common.{
  ℕ, zero, suc, ◌+◌, ◌^◌, ◌<◌, ◌≡◌, refl, ap, true, some, List, [], ◌∷◌, arith, length,
}
use paclink_unix.Buffer.{Memory, Buffer, addchar, rewind, addbuf, addbuf_loop}
use paclink_unix.Buffer.Contents.{IsValid, contents, remaining, length-contents}
use paclink_unix.Buffer.Write.{Appends, Appends-refl, Appends-trans, addchar-Appends}
use paclink_unix.Buffer.Read.{first, second, rewind-IsValid, advance, iterchar_end, iterchar_next}

module _ (m : Memory) (all : (n : ℕ) → m.grants n ≡ true) where
  addbuf_loop-Appends :
      (fuel : ℕ) (b s : Buffer) (xs : List ℕ)
      → IsValid b
      → IsValid s
      → remaining s ≡ xs
      → length xs < fuel
      → b.dlen + length xs < 2 ^ 32
      → (b' s' : Buffer) × (addbuf_loop m fuel b s ≡ some (b', s'))
        × Appends b xs b'
        × (remaining s' ≡ [])
  unfolding addbuf_loop
  addbuf_loop-Appends zero b s xs v w e h k = elim h [ ]
  addbuf_loop-Appends (suc fuel) b s [] v w e h k = (
    b,
    s,
    rw (ap first (iterchar_end s w e), addbuf_loop) (rw (ap second (iterchar_end s w e))),
    Appends-refl v,
    e,
  )
  addbuf_loop-Appends (suc fuel) b s (x ∷ xs) v w e h k =
      let (step, w', e') = iterchar_next s x xs w e in
      let one = addchar-Appends m all b x v (omega arith) in
      let (b', s', run, more, done) =
        addbuf_loop-Appends fuel (addchar m b x).1 (advance s) xs one.valid w' e' (omega arith)
          (omega (arith, one.size)) in
      (
        b',
        s',
        rw (ap first step, addbuf_loop) (rw (ap second step) run),
        Appends-trans (x ∷ []) xs one more,
        done,
      )

  -- For valid buffers, where memory is granted and the sum fits, buffer_addbuf ends, and it appends
  -- all that the second buffer holds, whatever its read position was. It leaves that buffer read to
  -- its end.
  pub addbuf-Appends :
      (b s : Buffer)
      → IsValid b
      → IsValid s
      → b.dlen + s.dlen < 2 ^ 32
      → (b' s' : Buffer) × (addbuf m b s ≡ some (b', s'))
        × Appends b (contents s) b'
        × (remaining s' ≡ [])
  unfolding addbuf rewind
  addbuf-Appends b s v w h =
      addbuf_loop-Appends (suc s.dlen) b (rewind s) (contents s) v (rewind-IsValid w) refl
        (omega (arith, length-contents w)) (omega (arith, length-contents w))
