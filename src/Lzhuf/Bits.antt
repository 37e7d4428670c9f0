-- ===== src/Lzhuf/Bits.antt =====
-- lzhuf_1.c: GetBit, GetByte and Putcode, which read and write bits through a word.
use Prim.Native.Nat.{bit_or}
use paclink_unix.Common.{
  ℕ, ◌+◌, ◌-◌, ◌*◌, ◌/◌, ◌%◌, ◌^◌, Bool, true, false, none, some, leb, ◌==◌, if◌then◌else◌,
}
use paclink_unix.Buffer.{Memory, Buffer}
use paclink_unix.Lzhuf.Crc.{crc_fputc, crc_fgetc}

-- The statics of the decoder: `getbuf` has 32 bits, `getlen` eight.
pub record Source : Type 0 where
  pub inbuf : Buffer
  pub crc : ℕ
  pub getbuf : ℕ
  pub getlen : ℕ

-- A round of `while (getlen <= 8)`; behind the end of the input the bytes are 0.
unfoldable pub refill_once : Source → Source
refill_once s =
    let (c, crc', inbuf') = crc_fgetc (s.crc, s.inbuf) in
    let i : ℕ = elim c [ none ↦ 0 | some x ↦ x ] in
    if leb s.getlen 8
    then record s {
      inbuf = inbuf';
      crc = crc';
      getbuf = bit_or s.getbuf (i * 2 ^ (8 - s.getlen) % 2 ^ 32);
      getlen = (s.getlen + 8) % 256;
    }
    else s

-- Two rounds take `getlen` beyond 8 from wherever it stands.
unfoldable pub refill : Source → Source
refill s = refill_once (refill_once s)

unfoldable pub get_bit : Source → ℕ × Source
get_bit s =
    let t = refill s in
    (
      t.getbuf / 2 ^ 15 % 2,
      record t { getbuf = t.getbuf * 2 % 2 ^ 32; getlen = (t.getlen + 255) % 256 },
    )

unfoldable pub get_byte : Source → ℕ × Source
get_byte s =
    let t = refill s in
    (
      t.getbuf / 2 ^ 8 % 256,
      record t { getbuf = t.getbuf * 2 ^ 8 % 2 ^ 32; getlen = (t.getlen + 248) % 256 },
    )

-- The statics of the encoder: `putbuf` and `codesize` have 32 bits, `putlen` eight.
pub record Sink : Type 0 where
  pub outbuf : Buffer
  pub crc : ℕ
  pub putbuf : ℕ
  pub putlen : ℕ
  pub codesize : ℕ

module _ (m : Memory) where
  -- `crc_fputc` on the state; `false` is EOF.
  unfoldable pub put_byte : ℕ → Sink → Bool × Sink
  put_byte c s =
      let (ok, crc', outbuf') = crc_fputc m c (s.crc, s.outbuf) in
      (ok, record s { crc = crc'; outbuf = outbuf' })

  -- The second byte, where `putlen` has reached 16.
  unfoldable pub put_second : ℕ → ℕ → Sink → Bool × Sink
  put_second l c s =
      let (ok, t) = put_byte s.putbuf s in
      let putlen' = (s.putlen + 248) % 256 in
      if ok
      then (
        true,
        record t {
          codesize = (t.codesize + 2) % 2 ^ 32;
          putlen = putlen';
          putbuf = c * 2 ^ (l - putlen') % 2 ^ 32;
        },
      )
      else (false, t)

  -- The first byte, where `putlen` has reached 8.
  unfoldable pub put_first : ℕ → ℕ → Sink → Bool × Sink
  put_first l c s =
      let (ok, t) = put_byte (s.putbuf / 2 ^ 8) s in
      let putlen' = (s.putlen + 248) % 256 in
      let t' = record t { putlen = putlen' } in
      if ok
      then (if leb 8 putlen' then put_second l c t' else (
        true,
        record t' { putbuf = t.putbuf * 2 ^ 8 % 2 ^ 32; codesize = (t.codesize + 1) % 2 ^ 32 },
      ))
      else (false, t)

  -- Output of the upper `l` bits of `c`; `true` is 0, `false` is -1.
  unfoldable pub putcode : ℕ → ℕ → Sink → Bool × Sink
  putcode l c s =
      let putlen' = (s.putlen + l) % 256 in
      let t = record s { putbuf = bit_or s.putbuf (c / 2 ^ s.putlen); putlen = putlen' } in
      if leb 8 putlen' then put_first l c t else (true, t)

  unfoldable pub encode_end : Sink → Bool × Sink
  encode_end s =
      let (ok, t) = put_byte (s.putbuf / 2 ^ 8) s in
      if s.putlen == 0
      then (true, s)
      else (if ok then (true, record t { codesize = (t.codesize + 1) % 2 ^ 32 }) else (false, t))
