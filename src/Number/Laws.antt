-- ===== src/Number/Laws.antt =====
-- The C library: strtoul on what printf writes.
use paclink_unix.Common.{
  ℕ, zero, suc, ◌+◌, ◌*◌, ◌/◌, ◌%◌, ◌^◌, ◌≤◌, ◌<◌, ◌≡◌, refl, ap, ◌∙◌, inl, inr, Bool, true, false,
  List, [], ◌∷◌, ◌++◌, arith, ltb, Bool-cases, All,
}
use paclink_unix.Strutil.{isspace}
use paclink_unix.Number.{
  digit_char, digits, decimal, hex_byte, digit_value, read_digits, skip_spaces, read_sign, skip_0x,
  strtoul, ulong_max,
}

digit_value-digit_char : (d : ℕ) → d < 16 → digit_value (digit_char d) ≡ d
unfolding digit_value digit_char
digit_value-digit_char d h = ground arith

-- A string at which the digits of a base end.
abbrev pub Stops : ℕ → List ℕ → Type 0
Stops base [] = Unit
Stops base (c ∷ s) = base ≤ digit_value c

read_digits_stop :
    (base acc : ℕ) (s : List ℕ) → Stops base s → read_digits base true acc s ≡ (true, acc, s)
unfolding read_digits
read_digits_stop base acc [] h = refl
read_digits_stop base acc (c ∷ s) h = ground arith

read_digits_next :
    (base d acc : ℕ) (any : Bool) (s : List ℕ)
    → d < 16
    → d < base
    → read_digits base any acc (digit_char d ∷ s) ≡ read_digits base true (acc * base + d) s
unfolding read_digits
read_digits_next base d acc any s h k = ground (arith, digit_value-digit_char d h)

read_digits-digits :
    (fuel n : ℕ) (any : Bool) (tail : List ℕ)
    → n < fuel
    → read_digits 10 any 0 (digits 10 fuel n tail) ≡ read_digits 10 true n tail
unfolding digits
read_digits-digits zero n any tail h = elim h [ ]
read_digits-digits (suc fuel) n any tail h = elim (Bool-cases (ltb n 10)) [
  | inl last ↦ rw last (
      read_digits_next 10 n 0 any tail (ground arith) (ground arith)
      ∙ ap (λ k. read_digits 10 true k tail) (omega arith))
  | inr more ↦ rw more (
      read_digits-digits fuel (n / 10) any (digit_char (n % 10) ∷ tail) (ground arith)
      ∙ read_digits_next 10 (n % 10) (n / 10) true tail (omega arith) (omega arith)
      ∙ ap (λ k. read_digits 10 true k tail) (omega arith))
]

-- A number begins with a digit.
digits-head :
    (fuel n : ℕ) (tail : List ℕ)
    → n < fuel
    → (d : ℕ) × (s : List ℕ) × (digits 10 fuel n tail ≡ digit_char d ∷ s) × (d < 10)
unfolding digits
digits-head zero n tail h = elim h [ ]
digits-head (suc fuel) n tail h = elim (Bool-cases (ltb n 10)) [
  | inl last ↦ (n, tail, rw last, ground arith)
  | inr more ↦ rw more (digits-head fuel (n / 10) (digit_char (n % 10) ∷ tail) (ground arith))
]

digits-append :
    (fuel n : ℕ) (s tail : List ℕ) → digits 10 fuel n s ++ tail ≡ digits 10 fuel n (s ++ tail)
unfolding digits
digits-append zero n s tail = refl
digits-append (suc fuel) n s tail =
    ground (arith, digits-append fuel (n / 10) (digit_char (n % 10) ∷ s) tail)

-- What holds of the digits holds of every byte of a number.
pub digits-All :
    (P : ℕ → Type 0) (fuel n : ℕ) (tail : List ℕ)
    → ((d : ℕ) → d < 10 → P (digit_char d))
    → All P tail
    → All P (digits 10 fuel n tail)
unfolding digits
digits-All P zero n tail f h = h
digits-All P (suc fuel) n tail f h = elim (Bool-cases (ltb n 10)) [
  | inl last ↦ rw last (f n (ground arith), h)
  | inr more ↦
      rw more
        (digits-All P fuel (n / 10) (digit_char (n % 10) ∷ tail) f (f (n % 10) (omega arith), h))
]

pub digit_char_plain :
    (d : ℕ)
    → d < 16
    → (isspace (digit_char d) ≡ false) × (b'0' ≤ digit_char d) × (digit_char d ≤ b'F')
unfolding digit_char isspace
digit_char_plain d h = ground arith

-- A string that begins with a digit has no space and no sign in front.
skip_digit :
    (d : ℕ) (s : List ℕ)
    → d < 16
    → read_sign (skip_spaces (digit_char d ∷ s)) ≡ (false, digit_char d ∷ s)
unfolding skip_spaces read_sign
skip_digit d s h = ground (arith, digit_char_plain d h)

-- `strtoul` reads a number below 2 ^ 64 that `%lu` has written, up to what follows it, if that
-- does not go on with a digit.
pub strtoul-decimal :
    (n : ℕ) (tail : List ℕ)
    → n < 2 ^ 64
    → Stops 10 tail
    → strtoul 10 (decimal n ++ tail) ≡ (n, tail)
unfolding strtoul decimal
strtoul-decimal n tail h k =
    let (d, s, e, lt) = digits-head (suc n) n tail (omega arith) in
    let value : read_digits 10 false 0 (digit_char d ∷ s) ≡ (true, n, tail) =
      rw (← e)
        (read_digits-digits (suc n) n false tail (omega arith) ∙ read_digits_stop 10 n tail k) in
    let fits : ltb ulong_max n ≡ false = ground arith in
    rw (digits-append, e) (rw (skip_digit d s (omega arith), value, fits))

skip_space : (s : List ℕ) → skip_spaces (b' ' ∷ s) ≡ skip_spaces s
unfolding skip_spaces isspace
skip_space s = refl

-- `strtoul` in base 16 reads back a byte that `%02X` has written behind a space.
pub strtoul-hex_byte : (n : ℕ) → n < 256 → strtoul 16 (b' ' ∷ hex_byte n) ≡ (n, [])
unfolding strtoul hex_byte skip_0x
strtoul-hex_byte n h =
    let value : read_digits 16 false 0 (digit_char (n / 16) ∷ digit_char (n % 16) ∷ [])
        ≡ (true, n, []) =
      read_digits_next 16 (n / 16) 0 false (digit_char (n % 16) ∷ []) (omega arith) (omega arith)
      ∙ read_digits_next 16 (n % 16) (0 * 16 + n / 16) true [] (omega arith) (omega arith)
      ∙ ap (λ k. read_digits 16 true k []) (omega arith)
      ∙ read_digits_stop 16 n [] tt in
    let fits : ltb ulong_max n ≡ false = ground arith in
    rw (skip_space, skip_digit (n / 16) (digit_char (n % 16) ∷ []) (omega arith)) (rw (value, fits))

-- A number has no space in front.
pub skip_spaces-decimal :
    (n : ℕ) (tail : List ℕ) → skip_spaces (decimal n ++ tail) ≡ decimal n ++ tail
unfolding decimal skip_spaces
skip_spaces-decimal n tail =
    let (d, s, e, lt) = digits-head (suc n) n tail (omega arith) in
    rw (digits-append, e) (rw (digit_char_plain d (omega arith)).0)
