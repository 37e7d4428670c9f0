-- ===== src/Proposal/RoundTrip.antt =====
-- wl2k.c: parse_proposal on the line of an outbound proposal.
use paclink_unix.Common.{
  ℕ, zero, suc, ◌%◌, ◌^◌, ◌≤◌, ◌<◌, ◌≡◌, refl, ◌≢◌, ◌⊎◌, inl, inr, false, some, List, [], ◌∷◌, ◌++◌,
  arith, ◌==◌, All, length,
}
use paclink_unix.Number.{decimal, strtoul, digit_value}
use paclink_unix.Number.Laws.{strtoul-decimal}
use paclink_unix.Proposal.{
  Proposal, static_prop, mid_maxlen, expect, read_mid, read_kind, parse_c, parse_code,
  parse_proposal, proposal_line,
}

-- What prepare_outbound_proposals makes: code 'C', type 'C' or 'E', an id of at most twelve bytes
-- with no space, and sizes that fit their types.
pub record IsOffer (p : Proposal) : Type 0 where
  pub coded : p.code ≡ b'C'
  pub typed : (p.kind ≡ b'C') ⊎ (p.kind ≡ b'E')
  pub short : length p.mid ≤ mid_maxlen
  pub plain : All (λ c. c ≢ b' ') p.mid
  pub usize_fits : p.usize < 2 ^ 64
  pub csize_fits : p.csize < 2 ^ 32

read_mid_plain :
    (n : ℕ) (mid s : List ℕ)
    → length mid ≤ n
    → All (λ c. c ≢ b' ') mid
    → read_mid n (mid ++ b' ' ∷ s) ≡ some (mid, b' ' ∷ s)
unfolding read_mid
read_mid_plain zero [] s l h = refl
read_mid_plain (suc n) [] s l h = refl
read_mid_plain zero (c ∷ mid) s l h = elim l [ ]
read_mid_plain (suc n) (c ∷ mid) s l h =
    let other : (c == b' ') ≡ false = ground (arith, h.0) in
    rw (other, read_mid_plain n mid s (omega arith) h.1)

read_kind_typed : (k : ℕ) (s : List ℕ) → (k ≡ b'C') ⊎ (k ≡ b'E') → read_kind (k ∷ s) ≡ some (k, s)
unfolding read_kind
read_kind_typed k s (inl e) = ground arith
read_kind_typed k s (inr e) = ground arith

-- The line that b2outboundproposal writes for a proposal (code 'C', type 'C' or 'E', an id of at
-- most twelve bytes with no space, sizes that fit their types) is read back by parse_proposal with
-- the same code, type, message id and sizes; the other fields are as in a fresh proposal.
pub parse_proposal-proposal_line :
    (p : Proposal)
    → IsOffer p
    → parse_proposal (proposal_line p)
      ≡ some (record static_prop {
        code = p.code;
        kind = p.kind;
        mid = p.mid;
        usize = p.usize;
        csize = p.csize;
      })
unfolding parse_proposal parse_code parse_c proposal_line expect digit_value
parse_proposal-proposal_line p h =
    let sized = b' ' ∷ (decimal p.csize ++ b' ' ∷ b'0' ∷ []) in
    let usize : strtoul 10 (decimal p.usize ++ sized) ≡ (p.usize, sized) =
      strtoul-decimal p.usize sized h.usize_fits stops in
    let csize : strtoul 10 (decimal p.csize ++ b' ' ∷ b'0' ∷ []) ≡ (p.csize, b' ' ∷ b'0' ∷ []) =
      strtoul-decimal p.csize (b' ' ∷ b'0' ∷ []) (omega (arith, h.csize_fits)) stops in
    let fits : p.csize % 2 ^ 32 ≡ p.csize = omega (arith, h.csize_fits) in
    rw h.coded (
      rw (read_kind_typed p.kind _ h.typed, read_mid_plain mid_maxlen p.mid _ h.short h.plain)
        (rw (usize, csize, fits)))
  where
    stops : 10 ≤ digit_value b' '
    stops = omega arith
