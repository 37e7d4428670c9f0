-- ===== src/Transfer.antt =====
-- wl2k.c: getcompressed and putcompressed, the transfer of one compressed message in blocks.
pub mod Ends
pub mod Blocks
pub mod RoundTrip
use paclink_unix.Common.{
  ℕ, zero, suc, ◌+◌, ◌-◌, ◌%◌, Bool, false, none, some, List, [], ◌∷◌, ◌++◌, ltb, ◌==◌,
  if◌then◌else◌, length, take, drop,
}
use paclink_unix.Common.Int.{ℤ, pos, pred_ℤ, suc_ℤ, is_zero}
use paclink_unix.Buffer.{Memory, Buffer, new, addchar}
use paclink_unix.Stream.{ok, null, stuck, Reader, ◌>>=◌, ◌>>◌, return, require, unget, getrawchar}
use paclink_unix.Number.{decimal}

abbrev pub chrnul : ℕ
chrnul = 0

abbrev pub chrsoh : ℕ
chrsoh = 1

abbrev pub chrstx : ℕ
chrstx = 2

abbrev pub chreot : ℕ
chreot = 4

abbrev pub chunk_size : ℕ
chunk_size = 250

-- The loops that read the title and the offset: at most `n` bytes, up to a NUL, which is put back.
-- The result is the string in the array and what is left of `len`.
unfoldable pub read_field : ℕ → ℤ → Reader (List ℕ × ℤ)
read_field zero len = return ([], len)
read_field (suc n) len = do
  c ← getrawchar
  let more : Reader (List ℕ × ℤ) = (do
    (title, len') ← read_field n (pred_ℤ len)
    return (c ∷ title, len'))
  if c == chrnul then (unget c >> return ([], suc_ℤ (pred_ℤ len))) else more

-- What stands before the blocks: SOH, a length, the title and the offset, each with its NUL.
unfoldable pub read_header : Reader (List ℕ × List ℕ)
read_header = do
  c ← getrawchar
  require (c == chrsoh)
  len ← getrawchar
  (title, len₁) ← read_field 80 (pos len)
  c₁ ← getrawchar
  require (c₁ == chrnul)
  (offset, len₂) ← read_field 6 (pred_ℤ len₁)
  c₂ ← getrawchar
  require (c₂ == chrnul)
  require (is_zero (pred_ℤ len₂))
  return (title, offset)

-- `strcmp(offset, "0") == 0`
unfoldable pub is_start : List ℕ → Bool
is_start [] = false
is_start (c ∷ []) = c == b'0'
is_start (c ∷ d ∷ s) = false

module _ (m : Memory) where
  -- `buffer_addchar(buf, c) == EOF` ends in NULL.
  unfoldable pub keep : Buffer → ℕ → Reader Buffer
  keep b c s = if (addchar m b c).0 then ok (addchar m b c).1 s else null s

  -- `while (len--) { ... }`: the bytes of one block go to the buffer and into the checksum.
  unfoldable pub read_chunk : ℕ → Buffer → ℕ → Reader (Buffer × ℕ)
  read_chunk zero b cksum = return (b, cksum)
  read_chunk (suc len) b cksum = do
    c ← getrawchar
    b' ← keep b c
    read_chunk len b' ((cksum + c) % 256)

  -- The checksum byte that follows the EOT.
  unfoldable pub read_end : Buffer → ℕ → Reader Buffer
  read_end b cksum = do c ← getrawchar; require ((cksum + c) % 256 == 0); return b

  -- The `for (;;)` over the blocks.
  unfoldable pub read_chunks : ℕ → Buffer → ℕ → Reader Buffer
  read_chunks zero b cksum = λ s. stuck
  read_chunks (suc fuel) b cksum = do
    c ← getrawchar
    let block : Reader Buffer = (do
      len ← getrawchar
      (b', cksum') ← read_chunk (if len == 0 then 256 else len) b cksum
      read_chunks fuel b' cksum')
    if c == chrstx then block else (if c == chreot then read_end b cksum else (λ s. null s))

  -- Each round of the last loop takes a byte at least, so the bytes to come bound the rounds.
  unfoldable pub getcompressed : Reader Buffer
  getcompressed s = elim (new m) [
    | none ↦ null s
    | some b ↦
        (do
          (title, offset) ← read_header
          require (is_start offset)
          λ s'. read_chunks (suc (length s')) b 0 s')
          s
  ]

-- The fields of a `struct proposal` that `putcompressed` reads: `data` stands for the bytes that
-- `cbuf->data` points to.
pub record Outgoing : Type 0 where
  pub title : List ℕ
  pub offset : ℕ
  pub csize : ℕ
  pub data_bytes : List ℕ

abbrev pub sum : List ℕ → ℕ
sum [] = 0
sum (x ∷ xs) = x + sum xs

-- The `while (rem > 0)` loop: the blocks from `cp` on, and the sum of their bytes. `rem` falls in
-- every round, so `rem` rounds are enough.
unfoldable pub put_chunks : ℕ → List ℕ → ℕ → ℕ → List ℕ × ℕ
put_chunks zero cp rem cksum = ([], cksum)
put_chunks (suc fuel) cp rem cksum =
    let msglen = if ltb chunk_size rem then chunk_size else rem % 256 in
    let (out, total) =
      put_chunks fuel (drop msglen cp) (rem - msglen) (cksum + sum (take msglen cp)) in
    if ltb 0 rem then (chrstx ∷ msglen ∷ (take msglen cp ++ out), total) else ([], cksum)

-- `fprintf(fp, "%c%c%s%c%s%c", CHRSOH, (int)len, title, CHRNUL, offset, CHRNUL)`
unfoldable pub put_header : List ℕ → List ℕ → List ℕ
put_header title offset =
    chrsoh
    ∷ ((length title + length offset + 2) % 256)
    ∷ (title ++ chrnul ∷ (offset ++ chrnul ∷ []))

-- `cksum = -cksum & 0xff`
abbrev pub complement : ℕ → ℕ
complement cksum = (256 - cksum % 256) % 256

-- What is written to the connection, and whether the function returns or calls exit.
pub data Sent : Type 0 where
  returned : List ℕ → Sent
  exited : List ℕ → Sent

-- `strlcpy` keeps 80 bytes of the title, `snprintf` six of the offset.
unfoldable pub putcompressed : Outgoing → Sent
putcompressed prop =
    let header = put_header (take 80 prop.title) (take 6 (decimal prop.offset)) in
    let rem = prop.csize - prop.offset in
    let (blocks, cksum) = put_chunks rem (drop prop.offset prop.data_bytes) rem 0 in
    if ltb prop.csize 6
    then exited header
    else (if ltb prop.csize prop.offset
        then exited header
        else returned (header ++ (blocks ++ chreot ∷ complement cksum ∷ [])))
