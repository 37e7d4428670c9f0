-- ===== src/Strutil/Laws.antt =====
-- strutil.c: what the string helpers compute.
use paclink_unix.Common.{
  ℕ, zero, suc, ◌≡◌, refl, sym, ap, ap₂, subst, ◌∙◌, ◌≢◌, ◌↔◌, ◌⊎◌, inl, inr, true, false, List, [],
  ◌∷◌, ◌++◌, map, append_assoc, arith, ◌==◌, Bool-cases, All, length, length-map,
}
use paclink_unix.Strutil.{
  tolower, islower, strncmp_zero, strncasecmp_zero, cut_at, strupper, strbegins, strcasebegins,
  strzapcc,
}

strncmp_zero-split :
    (s prefix : List ℕ)
    → strncmp_zero (length prefix) s prefix ≡ true
    → (rest : List ℕ) × (s ≡ prefix ++ rest)
unfolding strncmp_zero
strncmp_zero-split s [] h = (s, refl)
strncmp_zero-split [] (d ∷ t) h = cc
strncmp_zero-split (c ∷ s) (d ∷ t) h =
    let (rest, e) = strncmp_zero-split s t (ground arith) in (rest, ap₂ ◌∷◌ (ground arith) e)

strncmp_zero-append :
    (prefix rest : List ℕ) → strncmp_zero (length prefix) (prefix ++ rest) prefix ≡ true
unfolding strncmp_zero
strncmp_zero-append [] rest = refl
strncmp_zero-append (d ∷ t) rest = ground (arith, strncmp_zero-append t rest)

-- strbegins answers true exactly for the strings that are the prefix with something behind it.
pub strbegins_iff :
    (s prefix : List ℕ) → (strbegins s prefix ≡ true) ↔ ((rest : List ℕ) × (s ≡ prefix ++ rest))
unfolding strbegins
strbegins_iff s prefix = (
  strncmp_zero-split s prefix,
  λ r.
      subst (λ t. strncmp_zero (length prefix) t prefix ≡ true) (sym r.1)
        (strncmp_zero-append prefix r.0),
)

strncasecmp_zero-map :
    (n : ℕ) (s t : List ℕ) → strncasecmp_zero n s t ≡ strncmp_zero n (map tolower s) (map tolower t)
unfolding strncasecmp_zero strncmp_zero
strncasecmp_zero-map zero s t = refl
strncasecmp_zero-map (suc n) [] [] = refl
strncasecmp_zero-map (suc n) [] (d ∷ t) = refl
strncasecmp_zero-map (suc n) (c ∷ s) [] = refl
strncasecmp_zero-map (suc n) (c ∷ s) (d ∷ t) = ground (arith, strncasecmp_zero-map n s t)

-- strcasebegins is strbegins on the two strings in lower case.
pub strcasebegins_lem :
    (s prefix : List ℕ) → strcasebegins s prefix ≡ strbegins (map tolower s) (map tolower prefix)
unfolding strcasebegins strbegins
strcasebegins_lem s prefix = rw length-map (strncasecmp_zero-map (length prefix) s prefix)

-- No byte is a lower-case letter.
abbrev pub IsUpper : List ℕ → Type 0
IsUpper s = All (λ c. islower c ≡ false) s

-- strupper leaves no lower-case letter and keeps the length.
pub strupper-IsUpper : (s : List ℕ) → IsUpper (strupper s) × (length (strupper s) ≡ length s)
unfolding strupper
strupper-IsUpper [] = (tt, refl)
strupper-IsUpper (c ∷ s) = let (up, len) = strupper-IsUpper s in ((ground arith, up), ap suc len)

pub strupper_fixed : (s : List ℕ) → IsUpper s → strupper s ≡ s
unfolding strupper
strupper_fixed [] h = refl
strupper_fixed (c ∷ s) h = rw h.0 (ap (λ l. c ∷ l) (strupper_fixed s h.1))

pub cut_at_free : (c : ℕ) (s : List ℕ) → All (λ d. d ≢ c) (cut_at c s)
unfolding cut_at
cut_at_free c [] = tt
cut_at_free c (d ∷ s) = elim (Bool-cases (d == c)) [
  | inl here ↦ rw here tt
  | inr other ↦ rw other (λ e. ground arith, cut_at_free c s)
]

pub cut_at_keeps {κ} : (P : ℕ → Type κ) (c : ℕ) (s : List ℕ) → All P s → All P (cut_at c s)
unfolding cut_at
cut_at_keeps P c [] h = h
cut_at_keeps P c (d ∷ s) h = elim (Bool-cases (d == c)) [
  | inl here ↦ rw here tt
  | inr other ↦ rw other (h.0, cut_at_keeps P c s h.1)
]

pub cut_at_fixed : (c : ℕ) (s : List ℕ) → All (λ d. d ≢ c) s → cut_at c s ≡ s
unfolding cut_at
cut_at_fixed c [] h = refl
cut_at_fixed c (d ∷ s) h =
    let other : (d == c) ≡ false = ground (arith, h.0) in
    rw other (ap (λ l. d ∷ l) (cut_at_fixed c s h.1))

pub cut_at_stop : (c : ℕ) (s rest : List ℕ) → All (λ d. d ≢ c) s → cut_at c (s ++ c ∷ rest) ≡ s
unfolding cut_at
cut_at_stop c [] rest h = ground arith
cut_at_stop c (d ∷ s) rest h =
    let other : (d == c) ≡ false = ground (arith, h.0) in
    rw other (ap (λ l. d ∷ l) (cut_at_stop c s rest h.1))

-- A rest of a string that is empty or begins with one of two bytes.
abbrev pub BeginsWith : ℕ → ℕ → List ℕ → Type 0
BeginsWith a b [] = Unit
BeginsWith a b (c ∷ s) = (c ≡ a) ⊎ (c ≡ b)

cut_at_split :
    (c d : ℕ) (s : List ℕ) → (rest : List ℕ) × (s ≡ cut_at c s ++ rest) × BeginsWith c d rest
unfolding cut_at
cut_at_split c d [] = ([], refl, tt)
cut_at_split c d (x ∷ s) = elim (Bool-cases (x == c)) [
  | inl here ↦ (x ∷ s, rw here, inl (ground arith))
  | inr other ↦ let (rest, e, b) = cut_at_split c d s in (rest, rw other (ap (λ l. x ∷ l) e), b)
]

BeginsWith-swap : (a b : ℕ) (s : List ℕ) → BeginsWith a b s → BeginsWith b a s
BeginsWith-swap a b [] h = tt
BeginsWith-swap a b (c ∷ s) (inl e) = inr e
BeginsWith-swap a b (c ∷ s) (inr e) = inl e

BeginsWith-append :
    (a b : ℕ) (s t : List ℕ) → BeginsWith a b s → BeginsWith a b t → BeginsWith a b (s ++ t)
BeginsWith-append a b [] t h k = k
BeginsWith-append a b (c ∷ s) t h k = h

-- strzapcc keeps what stands before the first carriage return or line feed: its result has neither,
-- and what it drops is empty or begins with one of them.
pub strzapcc_lem :
    (s : List ℕ)
    → All (λ d. d ≢ 10) (strzapcc s)
      × All (λ d. d ≢ 13) (strzapcc s)
      × ((rest : List ℕ) × (s ≡ strzapcc s ++ rest) × BeginsWith 10 13 rest)
unfolding strzapcc
strzapcc_lem s =
    let (r₁, e₁, b₁) = cut_at_split 13 10 s in
    let (r₂, e₂, b₂) = cut_at_split 10 13 (cut_at 13 s) in
    (
      cut_at_free 10 (cut_at 13 s),
      cut_at_keeps _ 10 (cut_at 13 s) (cut_at_free 13 s),
      (
        r₂ ++ r₁,
        e₁ ∙ ap (λ l. l ++ r₁) e₂ ∙ append_assoc (cut_at 10 (cut_at 13 s)) r₂ r₁,
        BeginsWith-append 10 13 r₂ r₁ b₂ (BeginsWith-swap 13 10 r₁ b₁),
      ),
    )

-- `strzapcc` is the identity on a string that has neither.
pub strzapcc_fixed : (s : List ℕ) → All (λ d. d ≢ 10) s → All (λ d. d ≢ 13) s → strzapcc s ≡ s
unfolding strzapcc
strzapcc_fixed s h k = rw (cut_at_fixed 13 s k) (cut_at_fixed 10 s h)
