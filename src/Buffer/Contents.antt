-- ===== src/Buffer/Contents.antt =====
-- buffer.c: what a buffer holds, what of it is still to be read, and what each operation does to both.
use paclink_unix.Common.{
  ℕ, zero, suc, ◌+◌, ◌-◌, ◌%◌, ◌^◌, ◌≤◌, ◌<◌, ◌≡◌, refl, ap, true, some, List, [], ◌∷◌, ◌++◌, arith,
  length, take, drop, length-append, length-set, length-take, take-set, take-append,
}
use paclink_unix.Buffer.{Memory, Buffer, fresh_bytes, new, grow, put}

-- The bytes that the buffer holds, and those behind its read position.
abbrev pub contents : Buffer → List ℕ
contents b = take b.dlen b.block

abbrev pub remaining : Buffer → List ℕ
remaining b = drop b.i (contents b)

-- The block has `alen` bytes, the contents lie in it, and their number fits the position's type.
pub record IsValid (b : Buffer) : Type 0 where
  pub sized : length b.block ≡ b.alen
  pub some_room : 0 < b.alen
  pub within : b.dlen ≤ b.alen
  pub small : b.dlen < 2 ^ 32
  pub position : b.i ≤ b.dlen

pub length-contents : {b : Buffer} → IsValid b → length (contents b) ≡ b.dlen
length-contents {b} v = length-take b.dlen b.block (omega arith)

length-fresh_bytes : (m : Memory) (n k : ℕ) → length (fresh_bytes m n k) ≡ n
unfolding fresh_bytes
length-fresh_bytes m zero k = refl
length-fresh_bytes m (suc n) k = ap suc (length-fresh_bytes m n (suc k))

-- A new buffer is valid and empty.
pub new-IsValid :
    (m : Memory) {b : Buffer} → new m ≡ some b → IsValid b × (contents b ≡ []) × (b.i ≡ 0)
unfolding new
new-IsValid m h = ground (arith, length-fresh_bytes m 1 0)

pub put-IsValid :
    (b : Buffer) (c : ℕ) → IsValid b → b.dlen < b.alen → b.dlen + 1 < 2 ^ 32 → IsValid (put b c)
unfolding put
put-IsValid b c v h k = omega (arith, length-set b.block b.dlen (c % 256))

pub contents-put :
    (b : Buffer) (c : ℕ)
    → IsValid b
    → b.dlen < b.alen
    → contents (put b c) ≡ contents b ++ c % 256 ∷ []
unfolding put
contents-put b c v h =
    let e : b.dlen + 1 ≡ suc b.dlen = omega arith in
    rw e (take-set b.dlen b.block (c % 256) (omega arith))

pub grow-IsValid : (m : Memory) (b : Buffer) (n : ℕ) → IsValid b → b.alen ≤ n → IsValid (grow m b n)
unfolding grow
grow-IsValid m b n v h = omega (
  arith,
  length-append b.block (fresh_bytes m (n - b.alen) b.alen),
  length-fresh_bytes m (n - b.alen) b.alen,
)

pub contents-grow :
    (m : Memory) (b : Buffer) (n : ℕ) → IsValid b → contents (grow m b n) ≡ contents b
unfolding grow
contents-grow m b n v = take-append b.dlen b.block _ (omega arith)

pub new_granted :
    (m : Memory)
    → ((n : ℕ) → m.grants n ≡ true)
    → (b : Buffer) × (new m ≡ some b) × IsValid b × (contents b ≡ []) × (b.dlen ≡ 0)
unfolding new
new_granted m all =
    let b : Buffer = record { block = fresh_bytes m 1 0; alen = 1; dlen = 0; i = 0 } in
    (b, rw (all 32, all 1), omega (arith, length-fresh_bytes m 1 0), refl, refl)
