-- ===== src/Number.antt =====
-- The numbers of the protocol's lines: printf's %lu and %02X, and strtoul, as the C library
-- documents them.
pub mod Laws
use paclink_unix.Common.{
  ℕ, zero, suc, ◌+◌, ◌-◌, ◌*◌, ◌/◌, ◌%◌, ◌^◌, Bool, true, false, ◌&&◌, ◌||◌, List, [], ◌∷◌, ltb,
  leb, ◌==◌, if◌then◌else◌,
}
use paclink_unix.Strutil.{isspace}

-- A digit's character, capital from ten on.
unfoldable pub digit_char : ℕ → ℕ
digit_char d = if ltb d 10 then b'0' + d else b'A' + (d - 10)

-- The digits of `n` in front of `tail`, by rounds; a number has at most as many digits as it counts.
unfoldable pub digits : ℕ → ℕ → ℕ → List ℕ → List ℕ
digits base zero n tail = tail
digits base (suc fuel) n tail =
    let more = digits base fuel (n / base) (digit_char (n % base) ∷ tail) in
    if ltb n base then digit_char n ∷ tail else more

-- `%lu`, and `%d` on a number from 0 on
unfoldable pub decimal : ℕ → List ℕ
unfolding digits digit_char
decimal n = digits 10 (suc n) n []

-- `%02X` on a byte
unfoldable pub hex_byte : ℕ → List ℕ
unfolding digit_char
hex_byte n = digit_char (n / 16) ∷ digit_char (n % 16) ∷ []

-- The value of a digit, or of a letter in either case; 36 for any other character.
unfoldable pub digit_value : ℕ → ℕ
digit_value c =
    if leb b'0' c && leb c b'9'
    then c - b'0'
    else (if leb b'A' c && leb c b'Z'
        then c - b'A' + 10
        else (if leb b'a' c && leb c b'z' then c - b'a' + 10 else 36))

-- The digits at the start of a string, as a number with `acc` in front; `any` says if there was one.
unfoldable pub read_digits : ℕ → Bool → ℕ → List ℕ → Bool × ℕ × List ℕ
read_digits base any acc [] = (any, acc, [])
read_digits base any acc (c ∷ s) =
    let more = read_digits base true (acc * base + digit_value c) s in
    if ltb (digit_value c) base then more else (any, acc, c ∷ s)

abbrev pub ulong_max : ℕ
ulong_max = 2 ^ 64 - 1

unfoldable pub skip_spaces : List ℕ → List ℕ
skip_spaces [] = []
skip_spaces (c ∷ s) = let rest = skip_spaces s in if isspace c then rest else c ∷ s

-- Whether there is a minus sign, and what follows a sign.
unfoldable pub read_sign : List ℕ → Bool × List ℕ
read_sign [] = (false, [])
read_sign (c ∷ s) =
    if c == b'-' then (true, s) else (if c == b'+' then (false, s) else (false, c ∷ s))

-- "0x" or "0X" in front of a hexadecimal digit
unfoldable pub skip_0x : List ℕ → List ℕ
skip_0x (c ∷ x ∷ d ∷ s) =
    if (c == b'0') && (x == b'x' || x == b'X') && ltb (digit_value d) 16
    then d ∷ s
    else c ∷ x ∷ d ∷ s
skip_0x s = s

-- `strtoul(s, &endp, base)` for base 10 or 16: the value and the string from `endp` on. With no
-- digit the value is 0 and `endp` is `s`; too large a number gives ULONG_MAX; a minus sign negates.
unfoldable pub strtoul : ℕ → List ℕ → ℕ × List ℕ
strtoul base s =
    let (negative, t) = read_sign (skip_spaces s) in
    let (any, n, rest) = read_digits base false 0 (if base == 16 then skip_0x t else t) in
    let value =
      if ltb ulong_max n then ulong_max else (if negative then (2 ^ 64 - n) % 2 ^ 64 else n) in
    if any then (value, rest) else (0, s)
