-- ===== src/Lzhuf/Positions.antt =====
-- lzhuf_1.c: the decoder's tables against the encoder's, for the upper six bits of a position.
use paclink_unix.Common.{
  ℕ, ◌+◌, ◌-◌, ◌^◌, ◌<◌, ◌≡◌, refl, Bool, true, false, not, ◌&&◌, ◌||◌, arith, ltb, leb, ◌==◌,
  ==_iff, all_below, all_below_sound, get_or,
}
use paclink_unix.Lzhuf.Tables.{p_len, p_code, d_code, d_len}

-- A byte begins with the code of the upper bits `i`.
abbrev pub begins_code : ℕ → ℕ → Bool
begins_code i b =
    leb (get_or p_code i 0) b && ltb b (get_or p_code i 0 + 2 ^ (8 - get_or p_len i 0))

same_test : Bool → Bool → Bool
same_test true b = b
same_test false b = not b

pair_ok : ℕ → ℕ → Bool
pair_ok i b =
    same_test (begins_code i b) (get_or d_code b 0 == i)
    && (not (begins_code i b) || get_or d_len b 0 == get_or p_len i 0)

tables_checked : all_below 64 (λ i. all_below 256 (pair_ok i)) ≡ true
unfolding pair_ok same_test p_len p_code d_code d_len
tables_checked = refl

tests_sound :
    (p q r : Bool) → (same_test p q && (not p || r)) ≡ true → (p ≡ q) × (p ≡ true → r ≡ true)
unfolding same_test
tests_sound true q r h = ground arith
tests_sound false q r h = ground arith

pair_ok_lem :
    (i b : ℕ)
    → pair_ok i b ≡ true
    → (begins_code i b ≡ (get_or d_code b 0 == i))
      × (begins_code i b ≡ true → get_or d_len b 0 ≡ get_or p_len i 0)
unfolding pair_ok
pair_ok_lem i b h =
    let (same, len) =
      tests_sound (begins_code i b) (get_or d_code b 0 == i) (get_or d_len b 0 == get_or p_len i 0)
        h in
    (same, λ e. (==_iff _ _).0 (len e))

-- A byte begins with the encoder's code of the upper six bits of a position exactly if the
-- decoder's table gives these bits for it, and then the decoder's table of lengths gives the length
-- of that code.
pub positions_lem :
    (i b : ℕ)
    → i < 64
    → b < 256
    → (begins_code i b ≡ (get_or d_code b 0 == i))
      × (begins_code i b ≡ true → get_or d_len b 0 ≡ get_or p_len i 0)
positions_lem i b h k = pair_ok_lem i b (
    all_below_sound 256 (pair_ok i) b
      (all_below_sound 64 (λ j. all_below 256 (pair_ok j)) i tables_checked h) k)
