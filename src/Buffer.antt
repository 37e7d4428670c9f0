-- ===== src/Buffer.antt =====
-- buffer.c and buffer.h: a growing byte array with a read position.
pub mod Contents
pub mod Write
pub mod Read
pub mod Copy
pub mod Lines
use paclink_unix.Common.{
  ℕ, zero, suc, ◌+◌, ◌-◌, ◌*◌, ◌%◌, ◌^◌, Bool, true, false, Option, none, some, List, [], ◌∷◌, ◌++◌,
  leb, ◌==◌, if◌then◌else◌, get_or, set,
}

-- What the C library decides: whether `malloc` or `realloc` of `n` bytes succeeds, and the bytes
-- that a fresh block holds.
pub record Memory : Type 0 where
  pub grants : ℕ → Bool
  pub junk : ℕ → ℕ

-- `data` is the whole block. Contents are bytes; `alen` and `dlen` are 64 bits wide, `i` 32.
pub record Buffer : Type 0 where
  pub block : List ℕ
  pub alen : ℕ
  pub dlen : ℕ
  pub i : ℕ

abbrev pub ulong_mod : ℕ
ulong_mod = 2 ^ 64

abbrev pub uint_mod : ℕ
uint_mod = 2 ^ 32

-- `sizeof(struct buffer)` where pointers and longs have eight bytes
abbrev pub struct_size : ℕ
struct_size = 32

module _ (m : Memory) where
  -- `n` bytes of fresh memory that stand at index `k` of their block
  unfoldable pub fresh_bytes : ℕ → ℕ → List ℕ
  fresh_bytes zero k = []
  fresh_bytes (suc n) k = m.junk k ∷ fresh_bytes n (suc k)

  unfoldable pub new : Option Buffer
  new =
      if m.grants struct_size
      then (if m.grants 1
          then some (record { block = fresh_bytes 1 0; alen = 1; dlen = 0; i = 0 })
          else none)
      else none

-- The result of `buffer_addchar` and `buffer_addstring`: `true` for 0, `false` for -1.
abbrev pub Status : Type 0
Status = Bool

-- `b->data[b->dlen++] = (unsigned char) c`
unfoldable pub put : Buffer → ℕ → Buffer
put b c = record b { block = set b.block b.dlen (c % 256); dlen = b.dlen + 1 }

module _ (m : Memory) where
  -- `realloc` to `newlen` bytes keeps the old ones.
  unfoldable pub grow : Buffer → ℕ → Buffer
  grow b newlen = record b {
    block = b.block ++ fresh_bytes m (newlen - b.alen) b.alen;
    alen = newlen;
  }

  unfoldable pub addchar : Buffer → ℕ → Status × Buffer
  addchar b c =
      if b.dlen == b.alen
      then (let newlen = b.alen * 2 % ulong_mod in
          if m.grants newlen then (true, put (grow b newlen) c) else (false, b))
      else (true, put b c)

  -- A C string is the list of the bytes before its NUL.
  unfoldable pub addstring : Buffer → List ℕ → Status × Buffer
  addstring b [] = (true, b)
  addstring b (c ∷ s) =
      let (r, b') = addchar b c in let rest = addstring b' s in if r then rest else (false, b')

unfoldable pub rewind : Buffer → Buffer
rewind b = record b { i = 0 }

-- `none` is EOF.
unfoldable pub iterchar : Buffer → Option ℕ × Buffer
iterchar b =
    if leb b.dlen b.i
    then (none, b)
    else (some (get_or b.block b.i 0), record b { i = (b.i + 1) % uint_mod })

unfoldable pub lastchar : Buffer → Option ℕ
lastchar b = if b.dlen == 0 then none else some (get_or b.block (b.dlen - 1) 0)

unfoldable pub truncate : Buffer → Buffer
truncate b = record b { dlen = 0 }

unfoldable pub buffer_length : Buffer → ℕ
buffer_length b = b.dlen

module _ (m : Memory) where
  -- The results of `buffer_addchar` are not looked at. `none` is a loop that has not ended: the
  -- position would have wrapped round.
  unfoldable pub addbuf_loop : ℕ → Buffer → Buffer → Option (Buffer × Buffer)
  addbuf_loop zero b s = none
  addbuf_loop (suc fuel) b s =
      let (c, s') = iterchar s in
      elim c [ none ↦ some (b, s') | some x ↦ addbuf_loop fuel (addchar m b x).1 s' ]

  unfoldable pub addbuf : Buffer → Buffer → Option (Buffer × Buffer)
  addbuf b s = addbuf_loop (suc s.dlen) b (rewind s)

  unfoldable pub setstring : Buffer → List ℕ → Status × Buffer
  setstring b s = addstring m (truncate b) s

-- The C string at the start of a block; `none` is a read past its end.
unfoldable pub c_string : List ℕ → Option (List ℕ)
c_string [] = none
c_string (x ∷ xs) =
    let rest = c_string xs in
    elim (x == 0) [ true ↦ some [] | false ↦ elim rest [ none ↦ none | some s ↦ some (x ∷ s) ] ]

unfoldable pub getstring : Buffer → Option (List ℕ)
getstring b = c_string b.block

-- What `buffer_getline` comes to.
pub data Line : Type 0 where
  null : Line
  line : List ℕ → Line
  fault : Line

module _ (m : Memory) where
  -- `t` is the buffer of the line, `c` the byte in hand. `none` is a loop that has not ended.
  unfoldable pub getline_loop : ℕ → ℕ → Buffer → Buffer → ℕ → Option (Buffer × Buffer)
  getline_loop zero terminator b t c = none
  getline_loop (suc fuel) terminator b t c =
      let t' = (addchar m t c).1 in
      let (next, b') = iterchar b in
      let more : Option (Buffer × Buffer) = elim next [
        | none ↦ some (t', b')
        | some c' ↦ getline_loop fuel terminator b' t' c'
      ] in
      elim (c == terminator) [ true ↦ some (t', b) | false ↦ more ]

  -- `buffer_addchar(t, '\0'); cp = strdup(t->data)`
  unfoldable pub line_of : Buffer → Line
  line_of t = elim (getstring (addchar m t 0).1) [ none ↦ fault | some s ↦ line s ]

  unfoldable pub getline_from : Buffer → ℕ → Buffer → Option (Line × Buffer)
  getline_from b terminator t =
      let (c, b') = iterchar b in
      elim c [
        | none ↦ some (null, b')
        | some x ↦ elim (getline_loop (suc b.dlen) terminator b' t x) [
          | none ↦ none
          | some (t', b'') ↦ some (line_of t', b'')
        ]
      ]

  unfoldable pub getline : Buffer → ℕ → Option (Line × Buffer)
  getline b terminator = elim (new m) [
    | none ↦ some (null, b)
    | some t ↦ getline_from b terminator t
  ]
