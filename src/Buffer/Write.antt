-- ===== src/Buffer/Write.antt =====
-- buffer.c: buffer_addchar and buffer_addstring.
use paclink_unix.Common.{
  ℕ, ◌+◌, ◌*◌, ◌%◌, ◌^◌, ◌<◌, ◌≡◌, refl, sym, ap, ◌∙◌, inl, inr, true, List, [], ◌∷◌, ◌++◌, map,
  append-nil, append_assoc, map-append, arith, ◌==◌, if◌then◌else◌, Bool-cases, length,
  length-append,
}
use paclink_unix.Buffer.{Memory, Buffer, grow, put, addchar, addstring, truncate, ulong_mod}
use paclink_unix.Buffer.Contents.{
  IsValid, contents, put-IsValid, contents-put, grow-IsValid, contents-grow,
}

-- The bytes that C stores for a list of character values.
abbrev pub stored : List ℕ → List ℕ
stored s = map (λ c. c % 256) s

pub i-put : (b : Buffer) (c : ℕ) → (put b c).i ≡ b.i
unfolding put
i-put b c = refl

module _ (m : Memory) where
  pub addchar-IsValid :
      (b : Buffer) (c : ℕ) → IsValid b → b.dlen + 1 < 2 ^ 32 → IsValid (addchar m b c).1
  unfolding addchar
  addchar-IsValid b c v h = elim (Bool-cases (b.dlen == b.alen)) [
    | inl full ↦ elim (Bool-cases (m.grants (b.alen * 2 % ulong_mod))) [
      | inl ok ↦
          rw (full, ok)
            (put-IsValid _ c (grow-IsValid m b (b.alen * 2 % ulong_mod) v (ground arith))
              (unfold grow in ground arith) (unfold grow in h))
      | inr no_room ↦ rw (full, no_room) v
    ]
    | inr space ↦ rw space (put-IsValid b c v (ground arith) h)
  ]

  -- `buffer_addchar` appends the byte where it succeeds, and changes nothing where it fails.
  pub contents-addchar :
      (b : Buffer) (c : ℕ)
      → IsValid b
      → contents (addchar m b c).1
        ≡ (if (addchar m b c).0 then contents b ++ c % 256 ∷ [] else contents b)
  unfolding addchar
  contents-addchar b c v = elim (Bool-cases (b.dlen == b.alen)) [
    | inl full ↦ elim (Bool-cases (m.grants (b.alen * 2 % ulong_mod))) [
      | inl ok ↦
          rw (full, ok)
            (contents-put _ c (grow-IsValid m b (b.alen * 2 % ulong_mod) v (ground arith))
                (unfold grow in ground arith)
              ∙ ap (λ l. l ++ c % 256 ∷ []) (contents-grow m b (b.alen * 2 % ulong_mod) v))
      | inr no_room ↦ rw (full, no_room)
    ]
    | inr space ↦ rw space (contents-put b c v (ground arith))
  ]

  pub i-addchar : (b : Buffer) (c : ℕ) → (addchar m b c).1.i ≡ b.i
  unfolding addchar put grow
  i-addchar b c = ground arith

  pub addchar_grants :
      (b : Buffer) (c : ℕ) → ((n : ℕ) → m.grants n ≡ true) → (addchar m b c).0 ≡ true
  unfolding addchar
  addchar_grants b c all = ground (arith, all (b.alen * 2 % ulong_mod))

  pub dlen-addchar :
      (b : Buffer) (c : ℕ) → ((n : ℕ) → m.grants n ≡ true) → (addchar m b c).1.dlen ≡ b.dlen + 1
  unfolding addchar put grow
  dlen-addchar b c all = ground (arith, all (b.alen * 2 % ulong_mod))

-- `b'` is `b` with the characters `s` added.
pub record Appends (b : Buffer) (s : List ℕ) (b' : Buffer) : Type 0 where
  pub valid : IsValid b'
  pub holds : contents b' ≡ contents b ++ stored s
  pub size : b'.dlen ≡ b.dlen + length s
  pub position : b'.i ≡ b.i

pub Appends-refl : {b : Buffer} → IsValid b → Appends b [] b
Appends-refl {b} v = record {
  valid = v;
  holds = sym (append-nil (contents b));
  size = omega arith;
  position = refl;
}

pub Appends-trans :
    {a b c : Buffer} (s t : List ℕ) → Appends a s b → Appends b t c → Appends a (s ++ t) c
Appends-trans {a} {b} {c} s t p q = record {
  valid = q.valid;
  holds = q.holds ∙ rw (p.holds, map-append, append_assoc);
  size = omega (arith, p.size, q.size, length-append s t);
  position = q.position ∙ p.position;
}

module _ (m : Memory) (all : (n : ℕ) → m.grants n ≡ true) where
  pub addchar-Appends :
      (b : Buffer) (c : ℕ) → IsValid b → b.dlen + 1 < 2 ^ 32 → Appends b (c ∷ []) (addchar m b c).1
  addchar-Appends b c v h = record {
    valid = addchar-IsValid m b c v h;
    holds = rw (addchar_grants m b c all) at (contents-addchar m b c v);
    size = omega (arith, dlen-addchar m b c all);
    position = i-addchar m b c;
  }

  -- On a valid buffer, where memory is granted and the sum fits, buffer_addstring succeeds and
  -- appends the whole string, and the buffer stays valid with its read position.
  pub addstring-Appends :
      (b : Buffer) (s : List ℕ)
      → IsValid b
      → b.dlen + length s < 2 ^ 32
      → ((addstring m b s).0 ≡ true) × Appends b s (addstring m b s).1
  unfolding addstring
  addstring-Appends b [] v h = (refl, Appends-refl v)
  addstring-Appends b (c ∷ s) v h =
      let first = addchar-Appends b c v (omega arith) in
      let (r, rest) =
        addstring-Appends (addchar m b c).1 s first.valid (omega (arith, first.size)) in
      rw (addchar_grants m b c all) (r, Appends-trans (c ∷ []) s first rest)

truncate-IsValid : {b : Buffer} → IsValid b → b.i ≡ 0 → IsValid (truncate b)
unfolding truncate
truncate-IsValid v e = omega arith
