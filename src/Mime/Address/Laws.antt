-- ===== src/Mime/Address/Laws.antt =====
-- mime2wl.c: what mbo_header writes, and that it stays within its memory.
use Prim.Native.Nat.{digits, max, bit_or-bitwise}
use paclink_unix.Common.{
  ℕ, zero, suc, ◌+◌, ◌-◌, ◌/◌, ◌%◌, ◌^◌, ◌≤◌, ◌<◌, ◌≡◌, refl, ap, inl, inr, true, not, ◌&&◌, none,
  some, List, [], ◌∷◌, ◌++◌, arith, ltb, if◌then◌else◌, Bool-cases, Option-cases, length, take,
  drop, codes,
}
use paclink_unix.Strutil.{strchr, strncasecmp_zero}
use paclink_unix.Mime.Address.{
  smear, roundup_np2, Block, strcpy, strncpy, strncat, string_in, minimum, minus, winlink, fill_mbo,
  mbo_header,
}

abbrev or_digits : ℕ → ℕ → ℕ → ℕ
or_digits n a b = digits (λ y. y) max n a b

le-or_digits : (n a b : ℕ) → a ≤ n → a ≤ or_digits n a b
le-or_digits zero a b h = omega arith
le-or_digits (suc n) zero b h = omega arith
le-or_digits (suc n) (suc a) b h = omega (arith, le-or_digits n (suc a / 2) (b / 2) (omega arith))

or_digits-lt : (n k a b : ℕ) → a < 2 ^ k → b < 2 ^ k → or_digits n a b < 2 ^ k
or_digits-lt zero k a b h l = l
or_digits-lt (suc n) k zero b h l = l
or_digits-lt (suc n) zero (suc a) b h l = absurd (omega arith)
or_digits-lt (suc n) (suc k) (suc a) b h l =
    omega (arith, or_digits-lt n k (suc a / 2) (b / 2) (omega arith) (omega arith))

-- A smear sets bits and clears none, and none above the highest.
smear_bounds : (d v : ℕ) → 0 < d → v < 2 ^ 31 → (v ≤ smear d v) × (smear d v < 2 ^ 31)
unfolding smear
smear_bounds d v h k = (
  omega (arith, bit_or-bitwise v (v / d), le-or_digits v v (v / d) (omega arith)),
  omega (arith, bit_or-bitwise v (v / d), or_digits-lt v 31 v (v / d) k (grind arith)),
)

roundup_np2_bounds : (v : ℕ) → 0 < v → v ≤ 2 ^ 31 → (v ≤ roundup_np2 v) × (roundup_np2 v ≤ 2 ^ 31)
unfolding roundup_np2
roundup_np2_bounds v h k =
    let w₀ = (v + 2 ^ 32 - 1) % 2 ^ 32 in
    let s₀ : w₀ ≡ v - 1 = omega arith in
    let w₁ = smear 2 w₀ in
    let w₂ = smear (2 ^ 2) w₁ in
    let w₃ = smear (2 ^ 4) w₂ in
    let w₄ = smear (2 ^ 8) w₃ in
    let b₁ = smear_bounds 2 w₀ (omega arith) (omega arith) in
    let b₂ = smear_bounds (2 ^ 2) w₁ (omega arith) (b₁.1) in
    let b₃ = smear_bounds (2 ^ 4) w₂ (omega arith) (b₂.1) in
    let b₄ = smear_bounds (2 ^ 8) w₃ (omega arith) (b₃.1) in
    let b₅ = smear_bounds (2 ^ 16) w₄ (omega arith) (b₄.1) in (omega arith, omega arith)

-- What the header "Mbo:" is to hold: of an address in the domain "winlink", or with nothing behind the
-- first at sign, what stands before that; of another with an at sign, "SMTP:" and the address; and
-- the string itself if it has none.
unfoldable pub mbo_of : List ℕ → List ℕ
mbo_of from = elim (strchr b'@' from) [
  | none ↦ from
  | some rest ↦
      (if ltb 1 (length rest) && not (strncasecmp_zero 7 (drop 1 rest) winlink)
        then codes "SMTP:" ++ from
        else take (length from - length rest) from)
]

take-all : (n : ℕ) (s : List ℕ) → length s ≤ n → take n s ≡ s
take-all zero [] h = refl
take-all zero (c ∷ s) h = absurd (omega arith)
take-all (suc n) [] h = refl
take-all (suc n) (c ∷ s) h = ap (λ (t : List ℕ). c ∷ t) (take-all n s (omega arith))

module _ (m : ℕ) (from : List ℕ) (room : length from + 6 ≤ m) (small : m ≤ 2 ^ 31) where
  abbrev cleared : Block
  cleared = record { size = m; text = [] }

  minus_one : minus m 1 ≡ m - 1
  minus_one = omega arith

  -- The copy of a string that has no at sign
  copy_whole :
      (address : ℕ)
      → 0 < address
      → address < 2 ^ 47
      → string_in (strncpy cleared from (minimum ((2 ^ 64 - address) % 2 ^ 64) (minus m 1)))
        ≡ some from
  unfolding strncpy
  copy_whole address low high =
      let far : minimum ((2 ^ 64 - address) % 2 ^ 64) (minus m 1) ≡ m - 1 = ground arith in
      rw far (ground (arith, take-all (m - 1) from (omega arith)))

  copy_part :
      (n : ℕ)
      → n ≤ length from
      → string_in (strncpy cleared from (minimum n (minus m 1))) ≡ some (take n from)
  unfolding strncpy
  copy_part n h = let near : minimum n (minus m 1) ≡ n = ground arith in rw near (ground arith)

  copy_smtp :
      string_in (elim (strcpy cleared (codes "SMTP:")) [
        | none ↦ none
        | some c ↦ strncat c from (minimum (length from) (minus m 6))
      ])
      ≡ some (codes "SMTP:" ++ from)
  unfolding strcpy strncat
  copy_smtp =
      let near : minimum (length from) (minus m 6) ≡ length from = ground arith in
      let fits : ltb 5 m ≡ true = ground arith in
      rw (fits, near) (rw (take-all (length from) from (omega arith)) (ground arith))

  fill_mbo-mbo_of :
      (address : ℕ) → 0 < address → address < 2 ^ 47 → fill_mbo m address from ≡ some (mbo_of from)
  unfolding fill_mbo mbo_of
  fill_mbo-mbo_of address low high = elim (Option-cases (strchr b'@' from)) [
    | inl absent ↦ rw (absent, fill_mbo) (rw (absent, mbo_of) (copy_whole address low high))
    | inr (rest, at) ↦
        elim (Bool-cases (ltb 1 (length rest) && not (strncasecmp_zero 7 (drop 1 rest) winlink))) [
          | inl other ↦ rw (at, fill_mbo) (rw (at, mbo_of) (rw other copy_smtp))
          | inr ours ↦
              rw (at, fill_mbo)
                (rw (at, mbo_of) (rw ours (copy_part (length from - length rest) (omega arith))))
        ]
  ]

-- Every write of mbo_header stays in the memory that it has asked for, and the string is the one
-- that the header is to hold: of an address in the domain winlink, or with nothing behind its first
-- at sign, what stands before that; of another with an at sign, "SMTP:" and the address; and the
-- string itself if it has none. The header "From:" is at most 2 ^ 31 - 6 bytes long, and its
-- address is that of a program's memory, below 2 ^ 47.
pub mbo_header_lem :
    (address : ℕ) (from : List ℕ)
    → 0 < address
    → address < 2 ^ 47
    → length from + 6 ≤ 2 ^ 31
    → mbo_header address from ≡ some (mbo_of from)
unfolding mbo_header
mbo_header_lem address from low high size =
    let same : (length from + 6) % 2 ^ 32 ≡ length from + 6 = omega arith in
    let room = roundup_np2_bounds (length from + 6) (omega arith) size in
    rw same (fill_mbo-mbo_of (roundup_np2 (length from + 6)) from room.0 room.1 address low high)
