-- ===== src/Session/Inbound/Lines.antt =====
-- wl2k.c: tgetline on the lines of an offer.
use paclink_unix.Common.{
  ℕ, zero, suc, ◌/◌, ◌%◌, ◌<◌, ◌≡◌, refl, ◌≢◌, inl, inr, some, List, [], ◌∷◌, ◌++◌, arith, ltb,
  Bool-cases, All, All-append,
}
use paclink_unix.Number.{digit_char, digits, decimal, hex_byte}
use paclink_unix.Proposal.{Proposal, proposal_line}
use paclink_unix.Mid.Hash.{Database}
use paclink_unix.Session.{World, ok, until_nul, is_dropped, tgetline, wl2kgetline, next_line}

-- A byte that a line carries: ASCII, and neither NUL nor line feed, carriage return or 0x1e.
abbrev pub IsPlain : ℕ → Type 0
IsPlain c = (c < 128) × (0 < c) × (c ≢ 10) × (c ≢ 13) × (c ≢ 30)

tgetline-plain :
    (line s : List ℕ) → All IsPlain line → tgetline 13 10 (line ++ 13 ∷ s) ≡ some (line, s)
unfolding tgetline is_dropped
tgetline-plain [] s h = refl
tgetline-plain (c ∷ line) s h = ground (arith, tgetline-plain line s h.1, h.0)

until_nul-plain : (line : List ℕ) → All IsPlain line → until_nul line ≡ line
unfolding until_nul
until_nul-plain [] h = refl
until_nul-plain (c ∷ line) h = ground (arith, until_nul-plain line h.1, h.0)

-- A plain line that ends in a carriage return is read as it is, and what follows it is left.
pub wl2kgetline-plain :
    (D : Database) (w : World D) (line s : List ℕ)
    → All IsPlain line
    → w.input ≡ line ++ 13 ∷ s
    → wl2kgetline w ≡ ok (some line) (record w { input = s })
unfolding wl2kgetline
wl2kgetline-plain D w line s h e =
    rw (e, wl2kgetline) (rw (tgetline-plain line s h) (rw (until_nul-plain line h)))

pub next_line-plain :
    (D : Database) (w : World D) (line s : List ℕ)
    → All IsPlain line
    → w.input ≡ line ++ 13 ∷ s
    → next_line w ≡ ok line (record w { input = s })
unfolding next_line
next_line-plain D w line s h e = rw (wl2kgetline-plain D w line s h e)

digit_char-IsPlain : (d : ℕ) → d < 16 → IsPlain (digit_char d)
unfolding digit_char
digit_char-IsPlain d h = ground arith

digits-IsPlain :
    (fuel n : ℕ) (tail : List ℕ) → All IsPlain tail → All IsPlain (digits 10 fuel n tail)
unfolding digits
digits-IsPlain zero n tail h = h
digits-IsPlain (suc fuel) n tail h = elim (Bool-cases (ltb n 10)) [
  | inl last ↦ rw last (digit_char-IsPlain n (ground arith), h)
  | inr more ↦
      rw more (digits-IsPlain fuel (n / 10) _ (digit_char-IsPlain (n % 10) (omega arith), h))
]

decimal-IsPlain : (n : ℕ) → All IsPlain (decimal n)
unfolding decimal
decimal-IsPlain n = digits-IsPlain (suc n) n [] tt

pub hex_byte-IsPlain : (n : ℕ) → n < 256 → All IsPlain (hex_byte n)
unfolding hex_byte
hex_byte-IsPlain n h =
    (digit_char-IsPlain (n / 16) (omega arith), (digit_char-IsPlain (n % 16) (omega arith), tt))

pub proposal_line-IsPlain :
    (p : Proposal)
    → IsPlain p.code
    → IsPlain p.kind
    → All IsPlain p.mid
    → All IsPlain (proposal_line p)
unfolding proposal_line
proposal_line-IsPlain p c k m =
    let space : IsPlain b' ' = omega arith in
    (
      omega arith,
      (
        c,
        (
          space,
          (
            k,
            (
              omega arith,
              (
                space,
                All-append IsPlain p.mid _ m (
                  space,
                  All-append IsPlain (decimal p.usize) _ (decimal-IsPlain p.usize) (
                    space,
                    All-append IsPlain (decimal p.csize) _ (decimal-IsPlain p.csize)
                        (space, (omega arith, tt)),
                  ),
                ),
              ),
            ),
          ),
        ),
      ),
    )
