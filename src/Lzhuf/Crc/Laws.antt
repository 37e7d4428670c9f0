-- ===== src/Lzhuf/Crc/Laws.antt =====
-- lzhuf_1.c: the table of the CRC against its polynomial.
use Prim.Native.Nat.{bit_xor}
use paclink_unix.Common.{
  ℕ, zero, suc, ◌*◌, ◌/◌, ◌%◌, ◌^◌, ◌<◌, ◌≡◌, refl, true, arith, ltb, ◌==◌, if◌then◌else◌, ==_iff,
  ltb→lt, all_below, all_below_sound, get_or,
}
use paclink_unix.Lzhuf.Tables.{crctab}
use paclink_unix.Lzhuf.Crc.{updcrc}

-- One step of the CRC-16 of polynomial x^16 + x^12 + x^5 + 1 on a register of 16 bits.
unfoldable pub shift_step : ℕ → ℕ
shift_step r = if ltb r (2 ^ 15) then r * 2 else bit_xor (r * 2 % 2 ^ 16) 0x1021

unfoldable pub shift_steps : ℕ → ℕ → ℕ
shift_steps zero r = r
shift_steps (suc n) r = shift_steps n (shift_step r)

table_checked : all_below 256 (λ x. get_or crctab x 0 == shift_steps 8 (x * 256)) ≡ true
unfolding shift_steps shift_step crctab
table_checked = refl

-- Every entry of the table is the remainder that eight steps of the CRC make of its index.
pub crctab_lem : (x : ℕ) → x < 256 → get_or crctab x 0 ≡ shift_steps 8 (x * 256)
crctab_lem x h =
    (==_iff _ _).0
      (all_below_sound 256 (λ y. get_or crctab y 0 == shift_steps 8 (y * 256)) x table_checked h)

xor_checked : all_below 256 (λ x. all_below 256 (λ y. ltb (bit_xor x y) 256)) ≡ true
xor_checked = refl

xor_byte : (x y : ℕ) → x < 256 → y < 256 → bit_xor x y < 256
xor_byte x y h k = ltb→lt _ _ (
    all_below_sound 256 (λ b. ltb (bit_xor x b) 256) y
      (all_below_sound 256 (λ a. all_below 256 (λ b. ltb (bit_xor a b) 256)) x xor_checked h) k)

-- On a register of 16 bits updcrc stays in 16 bits, and it combines the lower byte, moved up, with
-- the eight polynomial steps of the upper byte and the character.
pub updcrc_lem :
    (c crc : ℕ)
    → crc < 2 ^ 16
    → (updcrc c crc
        ≡ bit_xor (crc * 256) (shift_steps 8 (bit_xor (c % 256) (crc / 256) * 256)) % 2 ^ 16)
      × (updcrc c crc < 2 ^ 16)
unfolding updcrc
updcrc_lem c crc h =
    let index = bit_xor (c % 256) (crc / 256) in
    let small : index < 256 = xor_byte (c % 256) (crc / 256) (omega arith) (omega arith) in
    (rw (crctab_lem index small), omega arith)
