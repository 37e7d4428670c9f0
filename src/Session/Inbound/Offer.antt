-- ===== src/Session/Inbound/Offer.antt =====
-- wl2k.c: inbound_parser on the lines of an offer.
pub mod Whole
use paclink_unix.Common.{
  ℕ, suc, ◌+◌, ◌<◌, ◌≡◌, refl, sym, subst, ◌∙◌, ◌⊎◌, inl, inr, false, some, List, [], ◌∷◌, ◌++◌,
  append-nil, arith, ◌==◌, All, length, drop,
}
use paclink_unix.Strutil.{strbegins, strncmp_zero}
use paclink_unix.Number.{hex_byte, strtoul}
use paclink_unix.Number.Laws.{strtoul-hex_byte}
use paclink_unix.Proposal.{Proposal, static_prop, parse_proposal, proposal_line}
use paclink_unix.Proposal.RoundTrip.{IsOffer, parse_proposal-proposal_line}
use paclink_unix.Transfer.{sum, complement}
use paclink_unix.Mid.Hash.{Database}
use paclink_unix.Session.{World, ok, then_run, ◌>>◌}
use paclink_unix.Session.Outbound.{
  proplimit, delete_one, doomed, delete_all, dodelete, offer, offer_end,
}
use paclink_unix.Session.Inbound.{
  Services, Batch, again, empty_batch, on_line, on_offer, on_end, answer_batch, turn, behind,
  inbound_loop,
}
use paclink_unix.Session.Inbound.Lines.{
  IsPlain, wl2kgetline-plain, hex_byte-IsPlain, proposal_line-IsPlain,
}

delete_all_twice : (ps : List Proposal) → delete_all (delete_all ps).0 ≡ ((delete_all ps).0, [])
unfolding delete_all delete_one doomed
delete_all_twice [] = refl
delete_all_twice (p ∷ ps) = ground (arith, delete_all_twice ps)

-- The world after `dodelete`.
abbrev pub settle : {D : Database} → World D → World D
settle w = record w {
  before = (delete_all w.before).0;
  unlinked = w.unlinked ++ (delete_all w.before).1;
}

pub settle_twice :
    (D : Database) (w : World D) (s : List ℕ)
    → settle (record (settle w) { input = s }) ≡ settle (record w { input = s })
settle_twice D w s = rw (delete_all_twice w.before, append-nil)

-- A second dodelete deletes no file and changes nothing.
pub dodelete_twice :
    (D : Database) (w : World D) → then_run (dodelete w) (λ _. dodelete) ≡ dodelete w
unfolding dodelete
dodelete_twice D w = rw (delete_all_twice w.before, append-nil)

-- What the receiver makes of a proposal: the fields of its line.
abbrev pub received : Proposal → Proposal
received p = record static_prop {
  code = p.code;
  kind = p.kind;
  mid = p.mid;
  usize = p.usize;
  csize = p.csize;
}

-- A proposal whose line is read back: an offer whose id has no control character in it.
pub record IsLineOffer (p : Proposal) : Type 0 where
  pub offer : IsOffer p
  pub plain : All IsPlain p.mid

kind-IsPlain : (p : Proposal) → (p.kind ≡ b'C') ⊎ (p.kind ≡ b'E') → IsPlain p.kind
kind-IsPlain p (inl e) = omega (arith, e)
kind-IsPlain p (inr e) = omega (arith, e)

line_head :
    (p : Proposal) → p.code ≡ b'C' → (rest : List ℕ) × (proposal_line p ≡ b'F' ∷ b'C' ∷ rest)
unfolding proposal_line
line_head p e = (drop 2 (proposal_line p), rw e)

module _ (D : Database) (S : Services) where
  on_line_fc :
      (rest : List ℕ) (b : Batch) (w : World D)
      → on_line D S (b'F' ∷ b'C' ∷ rest) b w ≡ on_offer D S (b'F' ∷ b'C' ∷ rest) b w
  unfolding on_line strbegins strncmp_zero
  on_line_fc rest b w =
      let some_length : (suc (suc (length rest)) == 0) ≡ false = ground arith in rw some_length

  on_offer_parsed :
      (line : List ℕ) (p : Proposal) (b : Batch) (w : World D)
      → parse_proposal line ≡ some p
      → length b.proposals < proplimit
      → on_offer D S line b w
        ≡ ok
            (again (record { proposals = b.proposals ++ p ∷ []; cksum = b.cksum + sum line + 13 }))
            (settle w)
  unfolding on_offer dodelete
  on_offer_parsed line p b w e room =
      let space : (length b.proposals == proplimit) ≡ false = ground arith in rw (space, e)

  on_line_offer :
      (p : Proposal) (b : Batch) (w : World D)
      → IsLineOffer p
      → length b.proposals < proplimit
      → on_line D S (proposal_line p) b w
        ≡ ok
            (again (record {
              proposals = b.proposals ++ received p ∷ [];
              cksum = b.cksum + sum (proposal_line p) + 13;
            }))
            (settle w)
  on_line_offer p b w h room =
      let (rest, e) = line_head p h.offer.coded in
      subst (λ l. on_line D S l b w ≡ on_offer D S l b w) (sym e) (on_line_fc rest b w)
      ∙ on_offer_parsed (proposal_line p) (received p) b w (parse_proposal-proposal_line p h.offer)
          room

  -- One round of the loop takes one line of an offer.
  pub loop_offer :
      (fuel : ℕ) (p : Proposal) (b : Batch) (w : World D) (s : List ℕ)
      → IsLineOffer p
      → length b.proposals < proplimit
      → w.input ≡ proposal_line p ++ 13 ∷ s
      → inbound_loop D S (suc fuel) b w
        ≡ inbound_loop D S fuel
            (record {
              proposals = b.proposals ++ received p ∷ [];
              cksum = b.cksum + sum (proposal_line p) + 13;
            })
            (settle (record w { input = s }))
  unfolding inbound_loop behind
  loop_offer fuel p b w s h room e =
      let code : IsPlain p.code = ground (arith, h.offer.coded) in
      rw
        (
          wl2kgetline-plain D w (proposal_line p) s
              (proposal_line-IsPlain p code (kind-IsPlain p h.offer.typed) h.plain) e,
          inbound_loop,
        )
        (rw (on_line_offer p b (record w { input = s }) h room))
