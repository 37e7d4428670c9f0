-- ===== src/Conf/Tokens.antt =====
-- conf.c: strtok_r on strings of which the delimiters are known, and the lines of a text.
use paclink_unix.Common.{
  ℕ, ◌≡◌, refl, ap, ◌≢◌, inl, inr, true, false, none, some, List, [], ◌∷◌, ◌++◌, arith, ◌==◌,
  Bool-cases, All,
}
use paclink_unix.Buffer.Lines.{first_line, after_line}
use paclink_unix.Conf.{is_delim, skip_delims, split_token, strtok_r, add_to_first, text_lines}

-- No byte is one of the delimiters.
abbrev pub Free : List ℕ → List ℕ → Type 0
Free ds s = All (λ c. is_delim ds c ≡ false) s

split_token-Free :
    (ds t : List ℕ) (c : ℕ) (rest : List ℕ)
    → Free ds t
    → is_delim ds c ≡ true
    → split_token ds (t ++ c ∷ rest) ≡ (t, rest)
unfolding split_token
split_token-Free ds [] c rest f h = rw h
split_token-Free ds (x ∷ t) c rest f h = rw (f.0, split_token-Free ds t c rest f.1 h)

split_token-end : (ds t : List ℕ) → Free ds t → split_token ds t ≡ (t, [])
unfolding split_token
split_token-end ds [] f = refl
split_token-end ds (x ∷ t) f = rw (f.0, split_token-end ds t f.1)

-- A token that a delimiter ends
pub strtok_r_token :
    (ds : List ℕ) (x : ℕ) (t : List ℕ) (c : ℕ) (rest : List ℕ)
    → Free ds (x ∷ t)
    → is_delim ds c ≡ true
    → strtok_r ds (x ∷ (t ++ c ∷ rest)) ≡ some (x ∷ t, rest)
unfolding strtok_r skip_delims
strtok_r_token ds x t c rest f h =
    rw (f.0, strtok_r) (ap some (split_token-Free ds (x ∷ t) c rest f h))

-- A token that the string's end ends
pub strtok_r_end :
    (ds : List ℕ) (x : ℕ) (t : List ℕ) → Free ds (x ∷ t) → strtok_r ds (x ∷ t) ≡ some (x ∷ t, [])
unfolding strtok_r skip_delims
strtok_r_end ds x t f = rw (f.0, strtok_r) (ap some (split_token-end ds (x ∷ t) f))

-- Delimiters in front of a token are passed over.
pub strtok_r_skip :
    (ds : List ℕ) (c : ℕ) (s : List ℕ) → is_delim ds c ≡ true → strtok_r ds (c ∷ s) ≡ strtok_r ds s
unfolding strtok_r skip_delims
strtok_r_skip ds c s h = rw (h, strtok_r)

pub strtok_r_nothing : (ds : List ℕ) → strtok_r ds [] ≡ none
unfolding strtok_r skip_delims
strtok_r_nothing ds = refl

-- A line that a line feed ends is the first of its text.
pub text_lines_next :
    (body rest : List ℕ)
    → All (λ c. c ≢ 10) body
    → text_lines (body ++ 10 ∷ rest) ≡ (body ++ 10 ∷ []) ∷ text_lines rest
unfolding text_lines add_to_first
text_lines_next [] rest h = refl
text_lines_next (c ∷ body) rest h =
    let other : (c == 10) ≡ false = ground (arith, h.0) in rw (other, text_lines_next body rest h.1)

-- The lines are those that buffer_getline finds one after the other.
pub text_lines-first_line :
    (x : ℕ) (xs : List ℕ)
    → text_lines (x ∷ xs) ≡ first_line 10 (x ∷ xs) ∷ text_lines (after_line 10 (x ∷ xs))
unfolding text_lines add_to_first
text_lines-first_line x [] = ground arith
text_lines-first_line x (y ∷ ys) = elim (Bool-cases (x == 10)) [
  | inl stop ↦ rw stop
  | inr go ↦ rw go (rw (text_lines-first_line y ys))
]
