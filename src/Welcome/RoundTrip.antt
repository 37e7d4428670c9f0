-- ===== src/Welcome/RoundTrip.antt =====
-- wl2kax25d.c: every text can be written so that print_esc_string prints it.
use paclink_unix.Common.{
  ℕ, ◌≡◌, refl, sym, ap, subst, inl, inr, true, false, some, List, [], ◌∷◌, ◌++◌, arith, ◌==◌,
  if◌then◌else◌, Bool-cases,
}
use paclink_unix.Welcome.{finished, in_front, print_esc_char, print_esc_string}

abbrev backslash : ℕ
backslash = 92

-- The way to write a byte: a backslash twice, the control characters by their letters
abbrev pub written : ℕ → List ℕ
written c =
    if c == backslash
    then backslash ∷ backslash ∷ []
    else (if c == 10
        then backslash ∷ b'n' ∷ []
        else (if c == 13 then backslash ∷ b'r' ∷ [] else c ∷ []))

abbrev pub written_text : List ℕ → List ℕ
written_text [] = []
written_text (c ∷ s) = written c ++ written_text s

escaped :
    (d out : ℕ) (s : List ℕ)
    → print_esc_char false d ≡ some (out ∷ [])
    → print_esc_string false (backslash ∷ d ∷ s) ≡ in_front (out ∷ []) (print_esc_string false s)
unfolding print_esc_string
escaped d out s e = rw (e, print_esc_string)

plain :
    (c : ℕ) (s : List ℕ)
    → (c == backslash) ≡ false
    → print_esc_string false (c ∷ s) ≡ in_front (c ∷ []) (print_esc_string false s)
unfolding print_esc_string
plain c [] h = rw (h, print_esc_string)
plain c (d ∷ s) h = rw (h, print_esc_string)

byte_is : (c d : ℕ) → (c == d) ≡ true → c ≡ d
byte_is c d h = ground arith

-- A byte that is printed as it was meant
abbrev IsWritten : ℕ → List ℕ → Type 0
IsWritten c s =
    print_esc_string false (written c ++ s) ≡ in_front (c ∷ []) (print_esc_string false s)

print-written :
    (c : ℕ) (s : List ℕ)
    → print_esc_string false (written c ++ s) ≡ in_front (c ∷ []) (print_esc_string false s)
unfolding print_esc_char
print-written c s = elim (Bool-cases (c == backslash)) [
  | inl slash ↦ subst (λ x. IsWritten x s) (sym (byte_is c 92 slash)) (escaped 92 92 s refl)
  | inr other ↦ elim (Bool-cases (c == 10)) [
    | inl line ↦ subst (λ x. IsWritten x s) (sym (byte_is c 10 line)) (escaped b'n' 10 s refl)
    | inr more ↦ elim (Bool-cases (c == 13)) [
      | inl return ↦ subst (λ x. IsWritten x s) (sym (byte_is c 13 return)) (escaped b'r' 13 s refl)
      | inr rest ↦ rw other (rw more (rw rest (plain c s other)))
    ]
  ]
]

-- Every text without a NUL has a writing that print_esc_string prints to its end as exactly this
-- text, where it does not add line feeds: a backslash twice, and line feed and carriage return as n
-- and r behind a backslash.
pub print_esc_string-written_text :
    (s : List ℕ)
    → print_esc_string false (written_text s) ≡ record { output = s; ending = finished }
unfolding print_esc_string
print_esc_string-written_text [] = refl
print_esc_string-written_text (c ∷ s) =
    rw (print-written c (written_text s)) (ap (in_front (c ∷ [])) (print_esc_string-written_text s))
