-- ===== src/Session/Outbound/Answers.antt =====
-- wl2k.c: the sender's reading of the "FS" line.
use paclink_unix.Common.{
  ℕ, ◌≤◌, ◌≡◌, refl, ◌⊎◌, inl, inr, true, false, some, List, [], ◌∷◌, ◌++◌, map, arith, All, length,
  take, drop,
}
use paclink_unix.Proposal.{Proposal}
use paclink_unix.Number.{strtoul, skip_spaces, read_sign, read_digits, digit_value}
use paclink_unix.Strutil.{isspace}
use paclink_unix.Session.Outbound.{
  Answer, take_it, have_it, later, from_offset, answer_of, answer_one, answers,
}

-- What an answer that carries no offset makes of a proposal.
abbrev pub answered : Answer → Proposal → Proposal
answered take_it p = record p { accepted = true; delete = false; offset = 0 }
answered have_it p = record p { accepted = false; delete = true; offset = 0 }
answered _ p = record p { accepted = false; delete = false; offset = 0 }

-- An answer that carries no offset and is known.
abbrev pub IsSimple : ℕ → Type 0
IsSimple c = (answer_of c ≡ take_it) ⊎ (answer_of c ≡ have_it) ⊎ (answer_of c ≡ later)

-- Each answer on the proposal at its place; what has no answer stays as it is.
abbrev pub answered_all : List ℕ → List Proposal → List Proposal
answered_all [] ps = ps
answered_all (c ∷ cs) [] = []
answered_all (c ∷ cs) (p ∷ ps) = answered (answer_of c) p ∷ answered_all cs ps

answer_one_simple :
    (c : ℕ) (cp : List ℕ) (p : Proposal)
    → IsSimple c
    → answer_one c cp p ≡ some (answered (answer_of c) p, cp)
unfolding answer_one
answer_one_simple c cp p (inl e) = rw (e, answer_one)
answer_one_simple c cp p (inr (inl e)) = rw (e, answer_one)
answer_one_simple c cp p (inr (inr e)) = rw (e, answer_one)

-- Without offset answers each character of the FS line is the answer to the proposal at its place,
-- however many there are, and characters behind the last proposal are passed over.
pub answers_simple :
    (cs : List ℕ) (ps : List Proposal)
    → All IsSimple cs
    → answers 0 cs ps ≡ some (answered_all cs ps)
unfolding answers
answers_simple [] ps h = refl
answers_simple (c ∷ cs) [] h = refl
answers_simple (c ∷ cs) (p ∷ ps) h =
    rw (answer_one_simple c cs p h.0, answers) (rw (answers_simple cs ps h.1))

-- An answer that carries an offset.
abbrev pub IsOffsetLetter : ℕ → Type 0
IsOffsetLetter c = (c ≡ b'A') ⊎ (c ≡ b'a') ⊎ (c ≡ b'!')

abbrev pub from_start : Proposal → Proposal
from_start p = record p { accepted = true; delete = false; offset = 0 }

strtoul_letter : (c : ℕ) (cp : List ℕ) → IsOffsetLetter c → strtoul 10 (c ∷ cp) ≡ (0, c ∷ cp)
unfolding strtoul skip_spaces read_sign read_digits digit_value isspace
strtoul_letter c cp (inl e) = rw e
strtoul_letter c cp (inr (inl e)) = rw e
strtoul_letter c cp (inr (inr e)) = rw e

answer_one_letter :
    (c : ℕ) (cp : List ℕ) (p : Proposal)
    → IsOffsetLetter c
    → answer_one c cp p ≡ some (from_start p, c ∷ cp)
unfolding answer_one answer_of
answer_one_letter c cp p h =
    let o : answer_of c ≡ from_offset = letter c h in
    rw (o, answer_one) (rw (strtoul_letter c cp h))
  where
    letter : (c : ℕ) → IsOffsetLetter c → answer_of c ≡ from_offset
    letter c (inl e) = rw e
    letter c (inr (inl e)) = rw e
    letter c (inr (inr e)) = rw e

answers_again :
    (c : ℕ) (cp : List ℕ) (ps : List Proposal)
    → IsOffsetLetter c
    → answers 0 (c ∷ cp) ps ≡ some (map from_start ps)
unfolding answers
answers_again c cp [] h = refl
answers_again c cp (p ∷ ps) h =
    rw (answer_one_letter c cp p h, answers) (rw (answers_again c cp ps h))

-- An offset answer is read as "from the start", whatever digits follow it, and it answers all the
-- proposals that are left: neither its digits nor the answers behind it are looked at. The answers
-- before it carry no offset and are no more than the proposals.
pub answers_offset :
    (cs : List ℕ) (c : ℕ) (cp : List ℕ) (ps : List Proposal)
    → All IsSimple cs
    → IsOffsetLetter c
    → length cs ≤ length ps
    → answers 0 (cs ++ c ∷ cp) ps
      ≡ some (answered_all cs (take (length cs) ps) ++ map from_start (drop (length cs) ps))
unfolding answers
answers_offset [] c cp ps h o l = answers_again c cp ps o
answers_offset (d ∷ cs) c cp [] h o l = elim l [ ]
answers_offset (d ∷ cs) c cp (p ∷ ps) h o l =
    rw (answer_one_simple d (cs ++ c ∷ cp) p h.0, answers)
      (rw (answers_offset cs c cp ps h.1 o (omega arith)))
