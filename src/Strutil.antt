-- ===== src/Strutil.antt =====
-- strutil.c: strupper, strbegins, strcasebegins and strzapcc. A C string is the list of its bytes
-- before the NUL; the character classes are those of the C locale.
pub mod Laws
pub mod Search
use paclink_unix.Common.{
  ℕ, zero, suc, ◌+◌, ◌-◌, Bool, true, false, ◌&&◌, ◌||◌, Option, none, some, List, [], ◌∷◌, leb,
  ◌==◌, if◌then◌else◌, length,
}

unfoldable pub islower : ℕ → Bool
islower c = leb b'a' c && leb c b'z'

unfoldable pub isupper : ℕ → Bool
isupper c = leb b'A' c && leb c b'Z'

unfoldable pub toupper : ℕ → ℕ
unfolding islower
toupper c = if islower c then c - 32 else c

unfoldable pub tolower : ℕ → ℕ
unfolding isupper
tolower c = if isupper c then c + 32 else c

-- space, and the five characters from tab to carriage return
unfoldable pub isspace : ℕ → Bool
isspace c = c == b' ' || (leb 9 c && leb c 13)

-- `strncmp(s, t, n) == 0`
unfoldable pub strncmp_zero : ℕ → List ℕ → List ℕ → Bool
strncmp_zero zero s t = true
strncmp_zero (suc n) [] [] = true
strncmp_zero (suc n) [] (d ∷ t) = false
strncmp_zero (suc n) (c ∷ s) [] = false
strncmp_zero (suc n) (c ∷ s) (d ∷ t) =
    let rest = strncmp_zero n s t in if c == d then rest else false

-- `strncasecmp(s, t, n) == 0`
unfoldable pub strncasecmp_zero : ℕ → List ℕ → List ℕ → Bool
unfolding tolower
strncasecmp_zero zero s t = true
strncasecmp_zero (suc n) [] [] = true
strncasecmp_zero (suc n) [] (d ∷ t) = false
strncasecmp_zero (suc n) (c ∷ s) [] = false
strncasecmp_zero (suc n) (c ∷ s) (d ∷ t) =
    let rest = strncasecmp_zero n s t in if tolower c == tolower d then rest else false

-- `*s = '\0'` at the first `c`, if there is one
unfoldable pub cut_at : ℕ → List ℕ → List ℕ
cut_at c [] = []
cut_at c (d ∷ s) = let rest = cut_at c s in if d == c then [] else d ∷ rest

-- `strchr(s, c)`: the string from its first `c` on
unfoldable pub strchr : ℕ → List ℕ → Option (List ℕ)
strchr c [] = none
strchr c (d ∷ s) = let rest = strchr c s in if d == c then some (d ∷ s) else rest

unfoldable pub strupper : List ℕ → List ℕ
unfolding islower toupper
strupper [] = []
strupper (c ∷ s) = (if islower c then toupper c else c) ∷ strupper s

unfoldable pub strbegins : List ℕ → List ℕ → Bool
unfolding strncmp_zero
strbegins s prefix = let plen = length prefix in strncmp_zero plen s prefix

unfoldable pub strcasebegins : List ℕ → List ℕ → Bool
unfolding strncasecmp_zero
strcasebegins s prefix = let plen = length prefix in strncasecmp_zero plen s prefix

unfoldable pub strzapcc : List ℕ → List ℕ
unfolding cut_at
strzapcc s = cut_at 10 (cut_at 13 s)
