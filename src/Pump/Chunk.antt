-- ===== src/Pump/Chunk.antt =====
-- wl2kax25.c: the loop that writes one chunk.
use paclink_unix.Common.{
  ℕ, zero, suc, ◌+◌, ◌-◌, ◌≤◌, ◌<◌, ◌≡◌, refl, sym, ap, ap₂, subst, ◌∙◌, List, [], ◌∷◌, ◌++◌, arith,
  All, length, take, drop, length-drop, take-nil, take-all, concat,
}
use paclink_unix.Pump.{Written, wrote, would_block, Writes, complete, min, write_loop}

-- Answers that take a chunk of `len` bytes, in writes of at least one byte and at most what was asked
pub data Accepts (paclen : ℕ) : ℕ → List Written → Type 0 where
  all_written : (answers : List Written) → Accepts paclen 0 answers
  part :
      (n len : ℕ) {answers : List Written}
      → 0 < n
      → n ≤ paclen
      → n ≤ suc len
      → Accepts paclen (suc len - n) answers
      → Accepts paclen (suc len) (wrote n ∷ answers)

module _ {A : Type 0} where
  drop-nil : (n : ℕ) → drop {A = A} n [] ≡ []
  drop-nil zero = refl
  drop-nil (suc n) = refl

  drop-plus : (m n : ℕ) (xs : List A) → drop (m + n) xs ≡ drop n (drop m xs)
  drop-plus zero n xs = ap (λ k. drop k xs) (omega arith)
  drop-plus (suc m) n [] = drop-nil (suc m + n) ∙ sym (drop-nil n)
  drop-plus (suc m) n (x ∷ xs) =
      ap (λ k. drop k (x ∷ xs)) {y = suc (m + n)} (omega arith) ∙ drop-plus m n xs

  take-plus : (m n : ℕ) (xs : List A) → take m xs ++ take n (drop m xs) ≡ take (m + n) xs
  take-plus zero n xs = ap (λ k. take k xs) (omega arith)
  take-plus (suc m) n [] = take-nil n ∙ sym (take-nil (suc m + n))
  take-plus (suc m) n (x ∷ xs) =
      ap (λ l. x ∷ l) (take-plus m n xs) ∙ ap (λ k. take k (x ∷ xs)) {x = suc (m + n)} (omega arith)

  take-take : (m n : ℕ) (xs : List A) → m ≤ n → take m (take n xs) ≡ take m xs
  take-take zero n xs h = refl
  take-take (suc m) zero xs h = elim h [ ]
  take-take (suc m) (suc n) [] h = refl
  take-take (suc m) (suc n) (x ∷ xs) h = ap (λ l. x ∷ l) (take-take m n xs (omega arith))

  length-take_most : (n : ℕ) (xs : List A) → length (take n xs) ≤ n
  length-take_most zero xs = omega arith
  length-take_most (suc n) [] = omega arith
  length-take_most (suc n) (x ∷ xs) = omega (arith, length-take_most n xs)

min-le : (m n k : ℕ) → k ≤ m → k ≤ n → k ≤ min m n
unfolding min
min-le m n k h l = ground (arith, h, l)

-- What a loop that sends everything leaves: packets of at most `paclen` bytes that make up `s`
abbrev pub Sends : ℕ → List ℕ → Writes → Type 0
Sends paclen s w =
    (w.ending ≡ complete)
    × (concat w.packets ≡ s)
    × All (λ (p : List ℕ). length p ≤ paclen) w.packets

module _ (paclen : ℕ) (array : List ℕ) where
  pub write_loop-Sends :
      (at len : ℕ) {answers : List Written}
      → Accepts paclen len answers
      → Sends paclen (take len (drop at array)) (write_loop paclen array answers at len)
  unfolding write_loop
  write_loop-Sends at zero (all_written answers) = (refl, refl, tt)
  write_loop-Sends at (suc len) (part n _ some_bytes small within rest) =
      let (done, joined, sizes) = write_loop-Sends (at + n) (suc len - n) rest in
      let asked = min-le paclen (suc len) n small within in
      let packet : take n (take (min paclen (suc len)) (drop at array)) ≡ take n (drop at array) =
        take-take n (min paclen (suc len)) (drop at array) asked in
      let counted : n + (suc len - n) ≡ suc len = omega arith in
      (
        done,
        ap₂ (λ (p q : List ℕ). p ++ q) packet
              (joined ∙ ap (take (suc len - n)) (drop-plus at n array))
            ∙ take-plus n (suc len - n) (drop at array)
            ∙ ap (λ m. take m (drop at array)) counted,
        (omega (arith, length-take_most n (take (min paclen (suc len)) (drop at array))), sizes),
      )

-- A write that would block behind `m + 1` bytes sent: the byte in front of the rest is sent again.
module _ (paclen c : ℕ) (s : List ℕ) where
  took_back :
      (m k : ℕ) {answers : List Written}
      → Accepts paclen (suc (suc k)) answers
      → (at len : ℕ) → at ≡ suc m
      → len ≡ suc k
      → Sends paclen
          (take (suc (suc k)) (drop m (c ∷ s)))
          (write_loop paclen (c ∷ s) (would_block ∷ answers) at len)
  unfolding write_loop
  took_back m k {answers} h at len e f =
      subst
        (λ i.
          Sends paclen (take (suc (suc k)) (drop m (c ∷ s)))
            (write_loop paclen (c ∷ s) (would_block ∷ answers) i len))
        (sym e)
        (subst
          (λ l.
            Sends paclen (take (suc (suc k)) (drop m (c ∷ s)))
              (write_loop paclen (c ∷ s) (would_block ∷ answers) (suc m) l))
          (sym f) (write_loop-Sends paclen (c ∷ s) m (suc (suc k)) h))

  -- After a write that would block, the loop sends the byte in front of the rest a second time:
  -- EAGAIN counts as -1 bytes written. If m + 1 of a chunk's bytes were taken, more than m + 1 are
  -- there, the next write gives EAGAIN and those behind take everything, then what arrives is these
  -- m + 1 bytes, and behind them the chunk from its byte of index m on.
  pub write_loop-would_block :
      (m k : ℕ) {answers : List Written}
      → suc m ≤ paclen
      → length s ≡ suc (m + k)
      → Accepts paclen (suc (suc k)) answers
      → Sends paclen
          (take (suc m) (c ∷ s) ++ drop m (c ∷ s))
          (write_loop paclen (c ∷ s) (wrote (suc m) ∷ would_block ∷ answers) 0 (length (c ∷ s)))
  unfolding write_loop
  write_loop-would_block m k small e h =
      let (done, joined, sizes) =
        took_back m k h (0 + suc m) (suc (length s) - suc m) (omega arith) (omega arith) in
      let asked : suc m ≤ min paclen (suc (length s)) =
        min-le paclen (suc (length s)) (suc m) small (omega arith) in
      let whole : take (suc (suc k)) (drop m (c ∷ s)) ≡ drop m (c ∷ s) =
        take-all (suc (suc k)) (drop m (c ∷ s)) (omega (arith, length-drop m (c ∷ s))) in
      (
        done,
        ap₂ (λ (p q : List ℕ). p ++ q)
            (take-take (suc m) (min paclen (suc (length s))) (c ∷ s) asked) (joined ∙ whole),
        (
          omega (arith, length-take_most (suc m) (take (min paclen (suc (length s))) (c ∷ s))),
          sizes,
        ),
      )
