-- ===== src/Lzhuf/Crc.antt =====
-- lzhuf_1.c: updcrc, crc_fputc and crc_fgetc.
pub mod Laws
use Prim.Native.Nat.{bit_xor}
use paclink_unix.Common.{ℕ, ◌*◌, ◌/◌, ◌%◌, ◌^◌, Bool, Option, none, some, get_or}
use paclink_unix.Buffer.{Memory, Buffer, addchar, iterchar}
use paclink_unix.Lzhuf.Tables.{crctab}

-- `((crc << 8) ^ crctab[(cp & 0xff) ^ (crc >> 8)])`, as an unsigned short
unfoldable pub updcrc : ℕ → ℕ → ℕ
updcrc cp crc = bit_xor (crc * 256) (get_or crctab (bit_xor (cp % 256) (crc / 256)) 0) % 2 ^ 16

-- The static `crc` goes in and out beside the buffer.
unfoldable pub crc_fputc : Memory → ℕ → ℕ × Buffer → Bool × ℕ × Buffer
crc_fputc m c (crc, outbuf) = let (ok, outbuf') = addchar m outbuf c in (ok, updcrc c crc, outbuf')

-- `none` is EOF, which leaves the CRC alone.
unfoldable pub crc_fgetc : ℕ × Buffer → Option ℕ × ℕ × Buffer
crc_fgetc (crc, inbuf) =
    let (c, inbuf') = iterchar inbuf in
    elim c [ none ↦ (none, crc, inbuf') | some x ↦ (some x, updcrc x crc, inbuf') ]
