-- ===== src/Buffer/Read.antt =====
-- buffer.c: buffer_iterchar and the read position.
use paclink_unix.Common.{
  ℕ, suc, ◌+◌, ◌%◌, ◌^◌, ◌<◌, ◌≡◌, sym, ◌∙◌, inl, inr, Option, none, some, List, [], ◌∷◌, arith,
  leb, Bool-cases, leb→le, get_or, drop, drop-take, drop-length,
}
use paclink_unix.Buffer.{Buffer, iterchar, rewind}
use paclink_unix.Buffer.Contents.{IsValid, contents, remaining, length-contents}

pub rewind-IsValid : {b : Buffer} → IsValid b → IsValid (rewind b)
unfolding rewind
rewind-IsValid v = omega arith

-- The byte that `buffer_iterchar` answers, and the buffer that it leaves.
abbrev pub first : Option ℕ × Buffer → Option ℕ
first r = r.0

abbrev pub second : Option ℕ × Buffer → Buffer
second r = r.1

-- The buffer with its position one further on.
abbrev pub advance : Buffer → Buffer
advance b = record b { i = b.i + 1 }

-- At the end of the contents `buffer_iterchar` answers EOF and moves nothing.
pub iterchar_end : (b : Buffer) → IsValid b → remaining b ≡ [] → iterchar b ≡ (none, b)
unfolding iterchar
iterchar_end b v e = elim (Bool-cases (leb b.dlen b.i)) [
  | inl past ↦ rw past
  | inr before ↦ cc (e, drop-take b.i b.dlen b.block 0 (ground arith) (omega arith))
]

-- Elsewhere it answers the next byte and moves on by one.
pub iterchar_next :
    (b : Buffer) (x : ℕ) (xs : List ℕ)
    → IsValid b
    → remaining b ≡ x ∷ xs
    → (iterchar b ≡ (some x, advance b)) × IsValid (advance b) × (remaining (advance b) ≡ xs)
unfolding iterchar
iterchar_next b x xs v e = elim (Bool-cases (leb b.dlen b.i)) [
  | inl past ↦
      cc (e, drop-length b.i (contents b) (omega (arith, length-contents v, leb→le _ _ past)))
  | inr before ↦
      let inside : b.i < b.dlen = ground arith in
      let step : get_or b.block b.i 0 ∷ drop (suc b.i) (contents b) ≡ x ∷ xs =
        sym (drop-take b.i b.dlen b.block 0 inside (omega arith)) ∙ e in
      let next : (b.i + 1) % 2 ^ 32 ≡ b.i + 1 = omega arith in
      let on : b.i + 1 ≡ suc b.i = omega arith in
      (rw (before, next) (cc step), omega arith, rw on (cc step))
]
