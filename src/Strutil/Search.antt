-- ===== src/Strutil/Search.antt =====
-- The C library's strchr and strcmp, by the parts of the string.
use paclink_unix.Common.{
  ℕ, ◌≡◌, refl, ap, ◌≢◌, inl, inr, false, none, some, List, [], ◌∷◌, ◌++◌, arith, ◌==◌, Bool-cases,
  All,
}
use paclink_unix.Strutil.{strchr}

-- No byte is `c`.
abbrev pub Without : ℕ → List ℕ → Type 0
Without c s = All (λ d. d ≢ c) s

pub strchr-none : (c : ℕ) (s : List ℕ) → strchr c s ≡ none → Without c s
unfolding strchr
strchr-none c [] e = tt
strchr-none c (d ∷ s) e = elim (Bool-cases (d == c)) [
  | inl here ↦ ground arith
  | inr other ↦ (λ k. ground arith, strchr-none c s (ground arith))
]

pub Without-strchr : (c : ℕ) (s : List ℕ) → Without c s → strchr c s ≡ none
unfolding strchr
Without-strchr c [] h = refl
Without-strchr c (d ∷ s) h =
    let other : (d == c) ≡ false = ground (arith, h.0) in
    rw (other, strchr) (Without-strchr c s h.1)

pub strchr-some :
    (c : ℕ) (s t : List ℕ)
    → strchr c s ≡ some t
    → (front behind : List ℕ) × (s ≡ front ++ c ∷ behind) × (t ≡ c ∷ behind) × Without c front
unfolding strchr
strchr-some c [] t e = cc
strchr-some c (d ∷ s) t e = elim (Bool-cases (d == c)) [
  | inl here ↦ ([], s, ap (λ (x : ℕ). x ∷ s) (ground arith), ground arith, tt)
  | inr other ↦
      let (front, behind, e₁, e₂, free) = strchr-some c s t (ground arith) in
      (d ∷ front, behind, ap (λ (l : List ℕ). d ∷ l) e₁, e₂, (λ k. ground arith, free))
]

pub strchr-append :
    (c : ℕ) (front behind : List ℕ)
    → Without c front
    → strchr c (front ++ c ∷ behind) ≡ some (c ∷ behind)
unfolding strchr
strchr-append c [] behind h = ground arith
strchr-append c (d ∷ front) behind h =
    let other : (d == c) ≡ false = ground (arith, h.0) in
    rw (other, strchr) (strchr-append c front behind h.1)
