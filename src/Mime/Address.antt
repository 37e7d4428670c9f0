-- ===== src/Mime/Address.antt =====
-- mime2wl.c: roundup_np2, mbo_header and address_cleanup.
pub mod Laws
use Prim.Native.Nat.{bit_or}
use paclink_unix.Common.{
  ℕ, ◌+◌, ◌-◌, ◌/◌, ◌%◌, ◌^◌, not, ◌&&◌, Option, none, some, List, [], ◌++◌, ltb, leb,
  if◌then◌else◌, length, take, drop, codes,
}
use paclink_unix.Strutil.{strchr, strncasecmp_zero, cut_at}
use paclink_unix.Number.{skip_spaces}

-- `v |= v >> k`, where `d` is 2 ^ k
unfoldable pub smear : ℕ → ℕ → ℕ
smear d v = bit_or v (v / d)

unfoldable pub roundup_np2 : ℕ → ℕ
unfolding smear
roundup_np2 v =
    let w = (v + 2 ^ 32 - 1) % 2 ^ 32 in
    (smear (2 ^ 16) (smear (2 ^ 8) (smear (2 ^ 4) (smear (2 ^ 2) (smear 2 w)))) + 1) % 2 ^ 32

-- A block that calloc has cleared: its size, and the string in it.
pub record Block : Type 0 where
  pub size : ℕ
  pub text : List ℕ

-- `strcpy`; `none` is a write past the block's end.
unfoldable pub strcpy : Block → List ℕ → Option Block
strcpy b s = if ltb (length s) b.size then some (record b { text = s }) else none

-- `strncpy` into a cleared block: it writes `n` bytes, NULs behind the string's end.
unfoldable pub strncpy : Block → List ℕ → ℕ → Option Block
strncpy b s n = if leb n b.size then some (record b { text = take n s }) else none

-- `strncat` writes up to `n` bytes of the string, and a NUL.
unfoldable pub strncat : Block → List ℕ → ℕ → Option Block
strncat b s n =
    if ltb (length b.text + length (take n s)) b.size
    then some (record b { text = b.text ++ take n s })
    else none

abbrev pub string_in : Option Block → Option (List ℕ)
string_in none = none
string_in (some b) = some b.text

abbrev pub minimum : ℕ → ℕ → ℕ
minimum a b = if ltb a b then a else b

-- `a - b` as a size_t
abbrev pub minus : ℕ → ℕ → ℕ
minus a b = (a + 2 ^ 64 - b) % 2 ^ 64

abbrev pub winlink : List ℕ
winlink = codes "winlink"

-- `calloc` succeeds; `address` is that of the string `mh_from`, which is subtracted from NULL where
-- the string has no at sign. The callsign is only compared for a message to the log.
unfoldable pub fill_mbo : ℕ → ℕ → List ℕ → Option (List ℕ)
unfolding strcpy strncpy strncat
fill_mbo memsize address mh_from =
    let b : Block = record { size = memsize; text = [] } in
    let copy : ℕ → Option (List ℕ) =
      λ n. string_in (strncpy b mh_from (minimum n (minus memsize 1))) in
    let smtp : Option (List ℕ) = string_in (elim (strcpy b (codes "SMTP:")) [
      | none ↦ none
      | some c ↦ strncat c mh_from (minimum (length mh_from) (minus memsize 6))
    ]) in
    elim (strchr b'@' mh_from) [
      | none ↦ copy ((2 ^ 64 - address) % 2 ^ 64)
      | some rest ↦
          let n = length mh_from - length rest in
          if ltb 1 (length rest) && not (strncasecmp_zero 7 (drop 1 rest) winlink)
          then smtp
          else copy n
    ]

unfoldable pub mbo_header : ℕ → List ℕ → Option (List ℕ)
unfolding fill_mbo roundup_np2
mbo_header address mh_from = fill_mbo (roundup_np2 ((length mh_from + 6) % 2 ^ 32)) address mh_from

-- What stands between the first '<' and the next '>', if both are there.
unfoldable pub in_brackets : List ℕ → Option (List ℕ)
in_brackets p = elim (strchr b'<' p) [
  | none ↦ none
  | some a ↦ elim (strchr b'>' a) [ none ↦ none | some rest ↦ some (cut_at b'>' (drop 1 a)) ]
]

unfoldable pub address_cleanup : List ℕ → List ℕ
unfolding in_brackets
address_cleanup addr =
    let p = skip_spaces addr in elim (in_brackets p) [ none ↦ cut_at b' ' p | some s ↦ s ]
