-- ===== src/Transfer/Ends.antt =====
-- wl2k.c: the ends of getcompressed.
use paclink_unix.Common.{
  ℕ, zero, suc, ◌+◌, ◌%◌, ◌≤◌, ◌<◌, inl, inr, Bool, true, false, Option, none, some, List, [], ◌∷◌,
  arith, ◌==◌, if◌then◌else◌, Bool-cases, length,
}
use paclink_unix.Common.Int.{ℤ, pos, pred_ℤ, is_zero}
use paclink_unix.Buffer.{Memory, Buffer, new}
use paclink_unix.Stream.{
  Read, ok, null, exited, stuck, Reader, then_read, ◌>>=◌, ◌>>◌, return, require, getrawchar,
}
use paclink_unix.Transfer.{
  read_field, read_header, keep, read_chunk, read_end, read_chunks, getcompressed, is_start, chrnul,
  chrstx, chreot, chrsoh,
}

-- A reader's result that is one of the program's, with at most `n` bytes left.
abbrev pub Ends : {A : Type 0} → ℕ → Read A → Type 0
Ends n (ok a s) = length s ≤ n
Ends n (null s) = length s ≤ n
Ends n exited = Unit
Ends n stuck = ⊥

pub Ends-le : {A : Type 0} (n k : ℕ) (r : Read A) → n ≤ k → Ends n r → Ends k r
Ends-le n k (ok a s) h e = omega arith
Ends-le n k (null s) h e = omega arith
Ends-le n k exited h e = tt
Ends-le n k stuck h e = e

Ends-then :
    {A B : Type 0} (n : ℕ) (r : Read A) (f : A → Reader B)
    → Ends n r
    → ((a : A) (s : List ℕ) → length s ≤ n → Ends n (f a s))
    → Ends n (then_read r f)
Ends-then n (ok a s) f e k = k a s e
Ends-then n (null s) f e k = e
Ends-then n exited f e k = tt
Ends-then n stuck f e k = e

-- A reader that ends on every input.
abbrev pub IsEnding : {A : Type 0} → Reader A → Type 0
IsEnding r = (s : List ℕ) → Ends (length s) (r s)

bind-IsEnding :
    {A B : Type 0} (r : Reader A) (f : A → Reader B)
    → IsEnding r
    → ((a : A) → IsEnding (f a))
    → IsEnding (r >>= f)
bind-IsEnding r f h k s =
    Ends-then (length s) (r s) f (h s) (λ a t l. Ends-le (length t) (length s) (f a t) l (k a t))

if-IsEnding :
    {A : Type 0} (b : Bool) (r q : Reader A)
    → IsEnding r
    → IsEnding q
    → IsEnding (if b then r else q)
if-IsEnding true r q h k = h
if-IsEnding false r q h k = k

require-IsEnding : (b : Bool) → IsEnding (require b)
require-IsEnding true s = omega arith
require-IsEnding false s = omega arith

return-IsEnding : {A : Type 0} (a : A) → IsEnding (return a)
return-IsEnding a s = omega arith

getrawchar-IsEnding : IsEnding getrawchar
getrawchar-IsEnding [] = tt
getrawchar-IsEnding (c ∷ s) = omega arith

read_field-IsEnding : (n : ℕ) (len : ℤ) → IsEnding (read_field n len)
unfolding read_field
read_field-IsEnding zero len s = omega arith
read_field-IsEnding (suc n) len [] = tt
read_field-IsEnding (suc n) len (c ∷ s) = elim (Bool-cases (c == chrnul)) [
  | inl end ↦ rw end (omega arith)
  | inr more ↦ rw more (
      Ends-le (length s) (suc (length s)) _ (omega arith) (
        bind-IsEnding (read_field n (pred_ℤ len)) _ (read_field-IsEnding n (pred_ℤ len))
          (λ r. return-IsEnding {A = List ℕ × ℤ} (c ∷ r.0, r.1)) s))
]

read_header-IsEnding : IsEnding read_header
unfolding read_header
read_header-IsEnding = bind-IsEnding getrawchar _ getrawchar-IsEnding (λ c.
    bind-IsEnding _ _ (require-IsEnding (c == chrsoh)) (λ _.
      bind-IsEnding getrawchar _ getrawchar-IsEnding (λ len.
        bind-IsEnding _ _ (read_field-IsEnding 80 (pos len)) (λ t.
          bind-IsEnding getrawchar _ getrawchar-IsEnding (λ c₁.
            bind-IsEnding _ _ (require-IsEnding (c₁ == chrnul)) (λ _.
              bind-IsEnding _ _ (read_field-IsEnding 6 (pred_ℤ t.1)) (λ o.
                bind-IsEnding getrawchar _ getrawchar-IsEnding (λ c₂.
                  bind-IsEnding _ _ (require-IsEnding (c₂ == chrnul)) (λ _.
                    bind-IsEnding _ _ (require-IsEnding (is_zero (pred_ℤ o.1)))
                      (λ _. return-IsEnding {A = List ℕ × List ℕ} (t.0, o.0)))))))))))

module _ (m : Memory) where
  keep-IsEnding : (b : Buffer) (c : ℕ) → IsEnding (keep m b c)
  unfolding keep
  keep-IsEnding b c s = ground arith

  read_chunk-IsEnding : (len : ℕ) (b : Buffer) (cksum : ℕ) → IsEnding (read_chunk m len b cksum)
  unfolding read_chunk
  read_chunk-IsEnding zero b cksum = return-IsEnding {A = Buffer × ℕ} (b, cksum)
  read_chunk-IsEnding (suc len) b cksum = bind-IsEnding getrawchar _ getrawchar-IsEnding (λ c.
      bind-IsEnding _ _ (keep-IsEnding b c) (λ b'. read_chunk-IsEnding len b' ((cksum + c) % 256)))

  read_end-IsEnding : (b : Buffer) (cksum : ℕ) → IsEnding (read_end m b cksum)
  unfolding read_end
  read_end-IsEnding b cksum =
      bind-IsEnding getrawchar _ getrawchar-IsEnding (λ c.
        bind-IsEnding _ _ (require-IsEnding ((cksum + c) % 256 == 0)) (λ _. return-IsEnding b))

  read_chunks-Ends :
      (fuel : ℕ) (b : Buffer) (cksum : ℕ) (s : List ℕ)
      → length s < fuel
      → Ends (length s) (read_chunks m fuel b cksum s)
  unfolding read_chunks
  read_chunks-Ends zero b cksum s h = elim h [ ]
  read_chunks-Ends (suc fuel) b cksum [] h = tt
  read_chunks-Ends (suc fuel) b cksum (c ∷ s) h = elim (Bool-cases (c == chrstx)) [
    | inl block ↦ rw block (
        Ends-le (length s) (suc (length s)) _ (omega arith)
          (block_ends (read_chunks-Ends fuel) s (omega arith)))
    | inr other ↦ rw other (
        Ends-le (length s) (suc (length s)) _ (omega arith)
          (if-IsEnding (c == chreot) _ _ (read_end-IsEnding b cksum) (λ t. omega arith) s))
  ]
    where
      block : Reader Buffer
      block = do
        len ← getrawchar
        (b', cksum') ← read_chunk m (if len == 0 then 256 else len) b cksum
        read_chunks m fuel b' cksum'

      block_ends :
          ((b' : Buffer) (ck : ℕ) (u : List ℕ)
            → length u < fuel
            → Ends (length u) (read_chunks m fuel b' ck u))
          → (t : List ℕ) → length t < fuel
          → Ends (length t) (block t)
      block_ends again [] l = tt
      block_ends again (len ∷ t) l =
          Ends-then (suc (length t)) _ _
            (Ends-le (length t) (suc (length t)) _ (omega arith)
              (read_chunk-IsEnding (if len == 0 then 256 else len) b cksum t))
            (λ r u k.
              Ends-le (length u) (suc (length t)) _ (omega arith) (again r.0 r.1 u (omega arith)))

  -- On every input, whatever memory is granted, getcompressed comes to one of its ends: a message,
  -- NULL or the exit on a lost connection; and it leaves no more bytes than there were.
  pub getcompressed-Ends : (s : List ℕ) → Ends (length s) (getcompressed m s)
  unfolding getcompressed
  getcompressed-Ends s = on_new (new m)
    where
      body : Buffer → Reader Buffer
      body b = do
        (title, offset) ← read_header
        require (is_start offset)
        λ s'. read_chunks m (suc (length s')) b 0 s'

      on_new : (o : Option Buffer) → Ends (length s) (elim o [ none ↦ null s | some b ↦ body b s ])
      on_new none = omega arith
      on_new (some b) =
          bind-IsEnding read_header _ read_header-IsEnding
            (λ r.
              bind-IsEnding _ _ (require-IsEnding (is_start r.1))
                (λ _ t. read_chunks-Ends (suc (length t)) b 0 t (omega arith)))
            s
