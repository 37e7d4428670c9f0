-- ===== src/Lzhuf/Decode.antt =====
-- lzhuf_1.c: DecodeChar, DecodePosition, Decode and version_1_Decode.
use Prim.Native.Nat.{bit_or}
use paclink_unix.Common.{
  ℕ, zero, suc, ◌+◌, ◌-◌, ◌*◌, ◌%◌, ◌^◌, Bool, true, false, Option, none, some, ltb, ◌==◌,
  if◌then◌else◌, get_or,
}
use paclink_unix.Buffer.{Memory, Buffer, new, addchar}
use paclink_unix.Lzhuf.Tables.{d_code, d_len}
use paclink_unix.Lzhuf.Crc.{crc_fgetc}
use paclink_unix.Lzhuf.Bits.{Source, get_bit, get_byte}
use paclink_unix.Lzhuf.Tree.{Array, store, Huffman, start_huff, update, table_size, root}
use paclink_unix.Lzhuf.Window.{window_size, lookahead, threshold, store_range}

-- `while (c < T)`: from the root to a leaf. `none` is a path longer than the table.
unfoldable pub descend : ℕ → Array → ℕ → Source → Option (ℕ × Source)
descend zero son c s = none
descend (suc fuel) son c s =
    let (bit, s') = get_bit s in
    let more = descend fuel son (son (c + bit)) s' in if ltb c table_size then more else some (c, s)

unfoldable pub decode_char : Huffman → Source → Option (ℕ × Huffman × Source)
decode_char h s = elim (descend table_size h.son (h.son root) s) [
  | none ↦ none
  | some (c, s') ↦ elim (update (c - table_size) h) [
    | none ↦ none
    | some h' ↦ some (c - table_size, h', s')
  ]
]

-- `while (j--) { i = (i << 1) + GetBit(inbuf); }`
unfoldable pub more_bits : ℕ → ℕ → Source → ℕ × Source
more_bits zero i s = (i, s)
more_bits (suc j) i s = let (bit, s') = get_bit s in more_bits j ((i * 2 + bit) % 2 ^ 32) s'

-- `c | (i & 0x3f)`, where `c` is a multiple of 64
unfoldable pub decode_position : Source → ℕ × Source
decode_position s =
    let (i, s') = get_byte s in
    let (low, s'') = more_bits (get_or d_len i 0 - 2) i s' in
    (bit_or (get_or d_code i 0 * 64) (low % 64), s'')

-- The decoder's state besides the bits.
pub record Decoder : Type 0 where
  pub source : Source
  pub tree : Huffman
  pub text_buf : Array
  pub r : ℕ
  pub outbuf : Buffer
  pub count : ℕ

-- `null` is NULL, with the CRC at that point, and `exited` the exit on a missing buffer. `fault` is
-- `buffer_free(NULL)`. `stuck` is no result of the program: the rounds of the model have run out.
pub data Decoded (A : Type 0) : Type 0 where
  ok : A → Decoded A
  null : ℕ → Decoded A
  exited fault stuck : Decoded A

module _ (m : Memory) where
  -- A byte goes to the output and into the window.
  unfoldable pub emit : ℕ → Decoder → Bool × Decoder
  emit c d =
      let (kept, outbuf') = addchar m d.outbuf c in
      (
        kept,
        record d {
          outbuf = outbuf';
          text_buf = store d.text_buf d.r (c % 256);
          r = (d.r + 1) % window_size;
          count = d.count + 1;
        },
      )

  -- `for (k = 0; k < j; k++)`: `n` bytes are copied from the window, from place `i + k` on.
  unfoldable pub copy_match : ℕ → ℕ → ℕ → Decoder → Bool × Decoder
  copy_match zero i k d = (true, d)
  copy_match (suc n) i k d =
      let (kept, d') = emit (d.text_buf ((i + k) % window_size)) d in
      let rest = copy_match n i (suc k) d' in if kept then rest else (false, d')

  -- What follows a code from 256 on: a position, and the copy.
  unfoldable pub decode_match : ℕ → Decoder → Bool × Decoder
  decode_match c d =
      let (position, s) = decode_position d.source in
      copy_match (c - 255 + threshold) ((d.r + window_size * 3 - position - 1) % window_size) 0
        (record d { source = s })

  unfoldable pub decode_one : Decoder → Option (Bool × Decoder)
  decode_one d = elim (decode_char d.tree d.source) [
    | none ↦ none
    | some (c, h, s) ↦
        let d' = record d { source = s; tree = h } in
        some (if ltb c 256 then emit c d' else decode_match c d')
  ]

  -- `for (count = 0; count < textsize; )`: every round makes a byte at least.
  unfoldable pub decode_loop : ℕ → ℕ → Decoder → Decoded Decoder
  decode_loop zero textsize d = if ltb d.count textsize then stuck else ok d
  decode_loop (suc fuel) textsize d =
      let more : Decoded Decoder = elim (decode_one d) [
        | none ↦ stuck
        | some (kept, d') ↦
            let rest = decode_loop fuel textsize d' in if kept then rest else null d'.source.crc
      ] in
      if ltb d.count textsize then more else ok d

-- `n` bytes, lowest first: `textsize |= x << 8 * k`. At the end of the input there is only the CRC.
pub data Header : Type 0 where
  header : ℕ → ℕ → Buffer → Header
  short : ℕ → Header

unfoldable pub read_size : ℕ → ℕ → ℕ → Buffer → Header
read_size zero unit crc b = header 0 crc b
read_size (suc n) unit crc b =
    let (x, crc', b') = crc_fgetc (crc, b) in
    elim x [
      | none ↦ short crc'
      | some v ↦ elim (read_size n (unit * 256) crc' b') [
        | header size crc'' b'' ↦ header (v * unit + size) crc'' b''
        | short crc'' ↦ short crc''
      ]
    ]

-- The statics that are left from an earlier call: the window, and the arrays of the tree.
module _ (m : Memory) (text_buf : Array) (tree : Huffman) where
  unfoldable pub start_decoder : ℕ → Buffer → Buffer → Decoder
  start_decoder crc inbuf outbuf = record {
    source = record { inbuf = inbuf; crc = crc; getbuf = 0; getlen = 0 };
    tree = start_huff tree;
    text_buf = store_range 0 (window_size - lookahead) b' ' text_buf;
    r = window_size - lookahead;
    outbuf = outbuf;
    count = 0;
  }

  -- The result is the output and the CRC of all bytes that were read.
  unfoldable pub decode : Buffer → Decoded (Buffer × ℕ)
  decode inbuf = elim (read_size 4 1 0 inbuf) [
    | short crc ↦ null crc
    | header textsize crc inbuf' ↦ elim (new m) [
      | none ↦ exited
      | some outbuf ↦
          let text : Decoded (Buffer × ℕ) =
            elim (decode_loop m textsize textsize (start_decoder crc inbuf' outbuf)) [
              | ok d ↦ ok (d.outbuf, d.source.crc)
              | null c ↦ null c
              | exited ↦ exited
              | fault ↦ fault
              | stuck ↦ stuck
            ] in
          if textsize == 0 then ok (outbuf, crc) else text
    ]
  ]

  -- The two bytes of the CRC in front, lowest first; a text whose CRC is another gives NULL, after
  -- `buffer_free(outbuf)`.
  unfoldable pub version_1_decode : Buffer → Decoded Buffer
  version_1_decode inbuf = elim (read_size 2 1 0 inbuf) [
    | short crc ↦ null crc
    | header crc_read crc₀ inbuf' ↦ elim (decode inbuf') [
      | ok (outbuf, crc) ↦ if crc == crc_read then ok outbuf else null crc
      | null crc ↦ if crc == crc_read then null crc else fault
      | exited ↦ exited
      | fault ↦ fault
      | stuck ↦ stuck
    ]
  ]
