-- ===== src/Handshake/Laws.antt =====
-- wl2k.c: the program's own identifier, and the form of a login response.
use paclink_unix.Common.{
  ℕ, zero, suc, ◌-◌, ◌/◌, ◌%◌, ◌≤◌, ◌<◌, ◌≡◌, refl, sym, ap, ◌∙◌, inl, inr, some, List, [], ◌∷◌,
  ◌++◌, arith, ltb, if◌then◌else◌, Bool-cases, All, All-append, length, drop, length-append,
  length-drop,
}
use paclink_unix.Strutil.{strupper, strbegins, strncmp_zero, islower, toupper}
use paclink_unix.Number.{decimal, digits, digit_char}
use paclink_unix.Handshake.{
  last_from, before_last, has_sub, parse_inboundsid, my_codes, my_sid, sl_salt, response_number,
  zeros, padded, compute_secure_login_response,
}

last_from-append : (c : ℕ) (s t u : List ℕ) → last_from c t ≡ some u → last_from c (s ++ t) ≡ some u
unfolding last_from
last_from-append c [] t u h = h
last_from-append c (d ∷ s) t u h = rw (last_from-append c s t u h, last_from)

codes_found : last_from b'-' (my_codes ++ b']' ∷ []) ≡ some (my_codes ++ b']' ∷ [])
unfolding last_from
codes_found = refl

codes_accepted : parse_inboundsid (my_codes ++ b']' ∷ []) ≡ some my_codes
unfolding parse_inboundsid last_from before_last has_sub strupper strbegins strncmp_zero islower
    toupper
codes_accepted = refl

parse_last :
    (line t : List ℕ)
    → last_from b'-' line ≡ last_from b'-' t
    → parse_inboundsid line ≡ parse_inboundsid t
unfolding parse_inboundsid
parse_last line t e = rw (e, parse_inboundsid)

-- The identifier that the program sends, whatever its version, is accepted by parse_inboundsid,
-- which reads the codes -B2FIHM$ from it.
pub parse_inboundsid-my_sid : (version : List ℕ) → parse_inboundsid (my_sid version) ≡ some my_codes
unfolding my_sid
parse_inboundsid-my_sid version =
    let tail = my_codes ++ b']' ∷ [] in
    let front = b'[' ∷ b'U' ∷ b'n' ∷ b'i' ∷ b'x' ∷ b'L' ∷ b'I' ∷ b'N' ∷ b'K' ∷ b'-' ∷ [] in
    let found : last_from b'-' (my_sid version) ≡ last_from b'-' tail =
      (last_from-append b'-' front (version ++ tail) tail
        (last_from-append b'-' version tail tail codes_found))
      ∙ sym codes_found in
    parse_last (my_sid version) tail found ∙ codes_accepted

abbrev pub IsDigit : ℕ → Type 0
IsDigit c = (b'0' ≤ c) × (c ≤ b'9')

digit_char-IsDigit : (d : ℕ) → d < 10 → IsDigit (digit_char d)
unfolding digit_char
digit_char-IsDigit d h = ground arith

digits-IsDigit :
    (fuel n : ℕ) (tail : List ℕ) → All IsDigit tail → All IsDigit (digits 10 fuel n tail)
unfolding digits
digits-IsDigit zero n tail h = h
digits-IsDigit (suc fuel) n tail h = elim (Bool-cases (ltb n 10)) [
  | inl last ↦ rw last (digit_char-IsDigit n (ground arith), h)
  | inr more ↦
      rw more (digits-IsDigit fuel (n / 10) _ (digit_char-IsDigit (n % 10) (omega arith), h))
]

zeros-IsDigit : (n : ℕ) → All IsDigit (zeros n) × (length (zeros n) ≡ n)
unfolding zeros
zeros-IsDigit zero = (tt, refl)
zeros-IsDigit (suc n) = let (all, len) = zeros-IsDigit n in ((omega arith, all), ap suc len)

padded-IsDigit : (n : ℕ) → All IsDigit (padded n) × (8 ≤ length (padded n))
unfolding padded decimal
padded-IsDigit n =
    let s = decimal n in
    let (all, len) = zeros-IsDigit (8 - length s) in
    (
      All-append IsDigit (zeros (8 - length s)) s all (digits-IsDigit (suc n) n [] tt),
      omega (arith, length-append (zeros (8 - length s)) s),
    )

drop-All : (n : ℕ) (s : List ℕ) → All IsDigit s → All IsDigit (drop n s)
drop-All zero s h = h
drop-All (suc n) [] h = tt
drop-All (suc n) (c ∷ s) h = drop-All n s h.1

-- Whatever MD5 returns, the response to a login challenge is exactly eight decimal digits, which
-- with the NUL fill the array that send_secure_login_response has for it.
pub compute_secure_login_response-IsDigit :
    (md5 : List ℕ → ℕ → ℕ) (challenge password : List ℕ)
    → All IsDigit (compute_secure_login_response md5 challenge password)
      × (length (compute_secure_login_response md5 challenge password) ≡ 8)
unfolding compute_secure_login_response
compute_secure_login_response-IsDigit md5 challenge password =
    of_number (response_number (md5 (challenge ++ (password ++ sl_salt))))
  where
    last_eight : List ℕ → List ℕ
    last_eight s = if ltb 8 (length s) then drop (length s - 8) s else s

    of_number : (n : ℕ) → All IsDigit (last_eight (padded n)) × (length (last_eight (padded n)) ≡ 8)
    of_number n =
        let (all, len) = padded-IsDigit n in
        elim (Bool-cases (ltb 8 (length (padded n)))) [
          | inl long ↦ rw long (
            drop-All (length (padded n) - 8) (padded n) all,
            omega (arith, length-drop (length (padded n) - 8) (padded n)),
          )
          | inr short ↦ rw short (all, ground (arith, len))
        ]
