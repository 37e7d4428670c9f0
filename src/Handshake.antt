-- ===== src/Handshake.antt =====
-- wl2k.c: the station identifiers (send_my_sid, parse_inboundsid) and the answer to a login challenge
-- (compute_secure_login_response, send_secure_login_response). MD5 is a parameter.
pub mod Laws
use paclink_unix.Common.{
  ℕ, zero, suc, ◌+◌, ◌-◌, ◌*◌, ◌%◌, ◌^◌, Bool, true, false, ◌||◌, Option, none, some, List, [], ◌∷◌,
  ◌++◌, ltb, ◌==◌, if◌then◌else◌, length, drop, codes,
}
use paclink_unix.Strutil.{strupper, strbegins}
use paclink_unix.Number.{decimal}

-- `strrchr(s, c)`: the string from its last `c` on
unfoldable pub last_from : ℕ → List ℕ → Option (List ℕ)
last_from c [] = none
last_from c (d ∷ s) = elim (last_from c s) [
  | none ↦ (if d == c then some (d ∷ s) else none)
  | some t ↦ some t
]

-- `*strrchr(s, c) = '\0'`
unfoldable pub before_last : ℕ → List ℕ → Option (List ℕ)
before_last c [] = none
before_last c (d ∷ s) = elim (before_last c s) [
  | none ↦ (if d == c then some [] else none)
  | some t ↦ some (d ∷ t)
]

-- `strstr(s, t) != NULL`
unfoldable pub has_sub : List ℕ → List ℕ → Bool
has_sub [] t = strbegins [] t
has_sub (c ∷ s) t = let rest = has_sub s t in strbegins (c ∷ s) t || rest

abbrev pub b2f : List ℕ
b2f = b'B' ∷ b'2' ∷ b'F' ∷ []

-- The codes of a station identifier; `none` is an exit.
unfoldable pub parse_inboundsid : List ℕ → Option (List ℕ)
parse_inboundsid line = elim (last_from b'-' line) [
  | none ↦ none
  | some codes ↦ elim (before_last b']' codes) [
    | none ↦ none
    | some s ↦ if has_sub (strupper s) b2f then some (strupper s) else none
  ]
]

-- "-B2FIHM$"
abbrev pub my_codes : List ℕ
my_codes = b'-' ∷ b'B' ∷ b'2' ∷ b'F' ∷ b'I' ∷ b'H' ∷ b'M' ∷ b'$' ∷ []

-- `sprintf(sidbuf, "[%s-%s-B2FIHM$]", SID_NAME, PACKAGE_VERSION)`; the version is set by the build.
unfoldable pub my_sid : List ℕ → List ℕ
my_sid version =
    b'['
    ∷ b'U'
    ∷ b'n'
    ∷ b'i'
    ∷ b'x'
    ∷ b'L'
    ∷ b'I'
    ∷ b'N'
    ∷ b'K'
    ∷ b'-'
    ∷ (version ++ (my_codes ++ b']' ∷ []))

unfoldable pub sl_salt : List ℕ
sl_salt =
    77 ∷ 197 ∷ 101 ∷ 206 ∷ 190 ∷ 249 ∷ 93 ∷ 200 ∷ 51 ∷ 243 ∷ 93 ∷ 237 ∷ 71 ∷ 94 ∷ 239 ∷ 138 ∷ 68
    ∷ 108 ∷ 70 ∷ 185 ∷ 225 ∷ 137 ∷ 217 ∷ 16 ∷ 51 ∷ 122 ∷ 193 ∷ 48 ∷ 194 ∷ 195 ∷ 198 ∷ 175 ∷ 172
    ∷ 169 ∷ 70 ∷ 84 ∷ 61 ∷ 62 ∷ 104 ∷ 186 ∷ 114 ∷ 52 ∷ 61 ∷ 168 ∷ 66 ∷ 129 ∷ 192 ∷ 208 ∷ 187 ∷ 249
    ∷ 232 ∷ 193 ∷ 41 ∷ 113 ∷ 41 ∷ 45 ∷ 240 ∷ 16 ∷ 29 ∷ 228 ∷ 208 ∷ 228 ∷ 61 ∷ 20 ∷ []

-- The thirty bits of the hash that are used.
unfoldable pub response_number : (ℕ → ℕ) → ℕ
response_number sig = sig 3 % 64 * 2 ^ 24 + sig 2 * 2 ^ 16 + sig 1 * 2 ^ 8 + sig 0

unfoldable pub zeros : ℕ → List ℕ
zeros zero = []
zeros (suc n) = b'0' ∷ zeros n

-- `%08d`
unfoldable pub padded : ℕ → List ℕ
padded n = let s = decimal n in zeros (8 - length s) ++ s

-- `md5_buffer`: the hash of a string, as its sixteen bytes by index
module _ (md5 : List ℕ → ℕ → ℕ) where
  unfoldable pub compute_secure_login_response : List ℕ → List ℕ → List ℕ
  compute_secure_login_response challenge password =
      let pr_str = padded (response_number (md5 (challenge ++ (password ++ sl_salt)))) in
      let n = length pr_str in if ltb 8 n then drop (n - 8) pr_str else pr_str

  -- What is written, and whether a response was.
  unfoldable pub send_secure_login_response : List ℕ → List ℕ → Option (List ℕ) → List ℕ × Bool
  send_secure_login_response version challenge none = ([], false)
  send_secure_login_response version challenge (some password) =
      let response = compute_secure_login_response challenge password in
      if ltb 0 (length challenge)
      then (my_sid version ++ 13 ∷ (b';' ∷ b'P' ∷ b'R' ∷ b':' ∷ b' ' ∷ (response ++ 13 ∷ [])), true)
      else ([], false)
