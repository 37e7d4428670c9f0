-- ===== src/Buffer/Lines.antt =====
-- buffer.c: buffer_getline and the lines of a text.
use paclink_unix.Common.{
  ℕ, zero, suc, ◌+◌, ◌^◌, ◌≤◌, ◌<◌, ◌≡◌, refl, ap, ap₂, ◌∙◌, inl, inr, true, some, List, [], ◌∷◌,
  ◌++◌, arith, ◌==◌, if◌then◌else◌, Bool-cases, All, length, take, length-drop-le,
}
use paclink_unix.Buffer.{
  Memory, Buffer, null, line, addchar, iterchar, c_string, getstring, line_of, getline_loop,
  getline_from, getline,
}
use paclink_unix.Buffer.Contents.{IsValid, contents, remaining, length-contents, new_granted}
use paclink_unix.Buffer.Write.{Appends, Appends-trans, addchar-Appends, stored}
use paclink_unix.Buffer.Read.{first, second, advance, iterchar_end, iterchar_next}

-- The bytes up to the first terminator, that one included, and the bytes behind it.
abbrev pub first_line : ℕ → List ℕ → List ℕ
first_line t [] = []
first_line t (x ∷ xs) = if x == t then x ∷ [] else x ∷ first_line t xs

abbrev pub after_line : ℕ → List ℕ → List ℕ
after_line t [] = []
after_line t (x ∷ xs) = if x == t then xs else after_line t xs

-- A byte of a C string.
abbrev pub IsText : ℕ → Type 0
IsText c = (0 < c) × (c < 256)

first_line-IsText : (t : ℕ) (xs : List ℕ) → All IsText xs → All IsText (first_line t xs)
first_line-IsText t [] h = h
first_line-IsText t (x ∷ xs) h = ground (arith, first_line-IsText t xs)

length-first_line-le : (t : ℕ) (xs : List ℕ) → length (first_line t xs) ≤ length xs
length-first_line-le t [] = omega arith
length-first_line-le t (x ∷ xs) = ground (arith, length-first_line-le t xs)

-- No byte is lost between a line and what follows it.
pub first_line-append-after_line : (t : ℕ) (xs : List ℕ) → first_line t xs ++ after_line t xs ≡ xs
first_line-append-after_line t [] = refl
first_line-append-after_line t (x ∷ xs) = ground (arith, first_line-append-after_line t xs)

stored-IsText : (xs : List ℕ) → All IsText xs → stored xs ≡ xs
stored-IsText [] h = refl
stored-IsText (x ∷ xs) h = ap₂ ◌∷◌ (omega arith) (stored-IsText xs h.1)

-- A string and its NUL at the start of a block are read back, whatever follows.
c_string-take :
    (n : ℕ) (xs block : List ℕ)
    → All IsText xs
    → take n block ≡ xs ++ 0 ∷ []
    → c_string block ≡ some xs
unfolding c_string
c_string-take zero [] block h e = cc
c_string-take zero (x ∷ xs) block h e = cc
c_string-take (suc n) [] [] h e = cc
c_string-take (suc n) (x ∷ xs) [] h e = cc
c_string-take (suc n) [] (c ∷ block) h e = ground arith
c_string-take (suc n) (x ∷ xs) (c ∷ block) h e = ground (arith, c_string-take n xs block)

module _ (m : Memory) (all : (n : ℕ) → m.grants n ≡ true) where
  getline_loop_reads :
      (fuel t : ℕ) (b l : Buffer) (c : ℕ) (xs : List ℕ)
      → IsValid b
      → IsValid l
      → remaining b ≡ xs
      → length xs < fuel
      → l.dlen + length xs + 1 < 2 ^ 32
      → (l' b' : Buffer) × (getline_loop m fuel t b l c ≡ some (l', b'))
        × Appends l (first_line t (c ∷ xs)) l'
        × IsValid b'
        × (remaining b' ≡ after_line t (c ∷ xs))
  unfolding getline_loop
  getline_loop_reads zero t b l c xs v w e h k = elim h [ ]
  getline_loop_reads (suc fuel) t b l c [] v w e h k =
      let one = addchar-Appends m all l c w (omega arith) in
      elim (Bool-cases (c == t)) [
        | inl stop ↦ ((addchar m l c).1, b, rw (stop, getline_loop), rw stop one, v, rw stop e)
        | inr go ↦ (
          (addchar m l c).1,
          b,
          rw (go, ap first (iterchar_end b v e), getline_loop)
              (rw (ap second (iterchar_end b v e))),
          rw go one,
          v,
          rw go e,
        )
      ]
  getline_loop_reads (suc fuel) t b l c (x ∷ xs) v w e h k =
      let one = addchar-Appends m all l c w (omega arith) in
      let (step, v', e') = iterchar_next b x xs v e in
      let (l', b', run, more, v'', rest) =
        getline_loop_reads fuel t (advance b) (addchar m l c).1 x xs v' one.valid e' (omega arith)
          (omega (arith, one.size)) in
      elim (Bool-cases (c == t)) [
        | inl stop ↦ ((addchar m l c).1, b, rw (stop, getline_loop), rw stop one, v, rw stop e)
        | inr go ↦ (
          l',
          b',
          rw (go, ap first step, getline_loop) (rw (ap second step) run),
          rw go (Appends-trans (c ∷ []) _ one more),
          v'',
          rw go rest,
        )
      ]

  line_of_text :
      (l : Buffer) (xs : List ℕ)
      → IsValid l
      → l.dlen + 1 < 2 ^ 32
      → contents l ≡ xs
      → All IsText xs
      → line_of m l ≡ line xs
  unfolding line_of getstring
  line_of_text l xs v h e texts =
      let ended = addchar-Appends m all l 0 v h in
      rw (
        line_of,
        c_string-take (addchar m l 0).1.dlen xs (addchar m l 0).1.block texts
            (ended.holds ∙ ap (λ s. s ++ 0 ∷ []) e),
      )

  -- On a buffer with text left, buffer_getline returns the bytes up to the first terminator, that
  -- one included, or all that are left if there is none; behind it the buffer reads on from there.
  -- Memory is granted, the buffer is valid and has fewer than 2 ^ 32 - 1 bytes, and what is left
  -- has no NUL.
  pub getline_reads :
      (b : Buffer) (t x : ℕ) (xs : List ℕ)
      → IsValid b
      → b.dlen + 1 < 2 ^ 32
      → remaining b ≡ x ∷ xs
      → All IsText (x ∷ xs)
      → (b' : Buffer) × (getline m b t ≡ some (line (first_line t (x ∷ xs)), b'))
        × IsValid b'
        × (remaining b' ≡ after_line t (x ∷ xs))
  unfolding getline getline_from
  getline_reads b t x xs v h e texts =
      let (l, made, fresh, empty, none_yet) = new_granted m all in
      let (step, v', e') = iterchar_next b x xs v e in
      let room : length xs + 1 ≤ b.dlen =
        omega (arith, length-drop-le b.i (contents b), length-contents v, ap length e) in
      let (l', b', run, more, v'', rest) =
        getline_loop_reads (suc b.dlen) t (advance b) l x xs v' fresh e' (omega arith)
          (omega arith) in
      let held : contents l' ≡ first_line t (x ∷ xs) =
        more.holds ∙ rw empty (stored-IsText _ (first_line-IsText t (x ∷ xs) texts)) in
      let s0 : (iterchar b).0 ≡ some x = ap first step in
      let s1 : (iterchar b).1 ≡ advance b = ap second step in
      (
        b',
        rw (made, getline)
            (rw (s0, getline_from)
              (rw (s1, run)
                (rw (
                  line_of_text l' (first_line t (x ∷ xs)) more.valid
                    (omega (arith, more.size, length-first_line-le t (x ∷ xs))) held
                    (first_line-IsText t (x ∷ xs) texts))))),
        v'',
        rest,
      )

  -- With nothing left `buffer_getline` returns NULL, and the buffer stays as it was.
  pub getline_end :
      (b : Buffer) (t : ℕ) → IsValid b → remaining b ≡ [] → getline m b t ≡ some (null, b)
  unfolding getline getline_from
  getline_end b t v e =
      let (l, made, _, _, _) = new_granted m all in
      rw (made, getline)
        (rw (ap first (iterchar_end b v e), getline_from) (rw (ap second (iterchar_end b v e))))
