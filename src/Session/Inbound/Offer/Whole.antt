-- ===== src/Session/Inbound/Offer/Whole.antt =====
-- wl2k.c: a whole offer, its lines and the line that ends it.
use paclink_unix.Common.{
  ℕ, zero, suc, ◌+◌, ◌≤◌, ◌≡◌, refl, ap, ◌∙◌, true, false, List, [], ◌∷◌, ◌++◌, map, append-nil,
  append_assoc, arith, ◌==◌, All, length, length-append,
}
use paclink_unix.Strutil.{strbegins, strncmp_zero}
use paclink_unix.Number.{hex_byte, strtoul}
use paclink_unix.Number.Laws.{strtoul-hex_byte}
use paclink_unix.Proposal.{Proposal, proposal_line}
use paclink_unix.Transfer.{sum, complement}
use paclink_unix.Mid.Hash.{Database}
use paclink_unix.Session.{World, then_run, ◌>>◌}
use paclink_unix.Session.Outbound.{proplimit, offer, offer_end}
use paclink_unix.Session.Inbound.{
  Services, Batch, empty_batch, on_line, on_end, answer_batch, turn, behind, inbound_loop,
}
use paclink_unix.Session.Inbound.Lines.{IsPlain, wl2kgetline-plain, hex_byte-IsPlain}
use paclink_unix.Session.Inbound.Offer.{settle, received, IsLineOffer, settle_twice, loop_offer}

sum-append : (xs ys : List ℕ) → sum (xs ++ ys) ≡ sum xs + sum ys
sum-append [] ys = omega arith
sum-append (x ∷ xs) ys = omega (arith, sum-append xs ys)

offer-nil : (n cksum : ℕ) → offer n [] cksum ≡ ([], cksum)
unfolding offer
offer-nil zero cksum = refl
offer-nil (suc n) cksum = refl

line_sum : (cksum : ℕ) (line : List ℕ) → cksum + sum (line ++ 13 ∷ []) ≡ cksum + sum line + 13
line_sum cksum line = omega (arith, sum-append line (13 ∷ []))

-- The batch behind an offer: its proposals as they are received, and the sender's checksum.
abbrev pub offered : ℕ → List Proposal → Batch → Batch
offered n ps b = record {
  proposals = b.proposals ++ map received ps;
  cksum = (offer n ps b.cksum).1;
}

module _ (D : Database) (S : Services) where
  loop_offers :
      (n k fuel : ℕ) (p : Proposal) (ps : List Proposal) (b : Batch) (w : World D) (s : List ℕ)
      → All IsLineOffer (p ∷ ps)
      → length (p ∷ ps) ≤ n
      → length b.proposals + length (p ∷ ps) ≤ proplimit
      → w.input ≡ (offer n (p ∷ ps) b.cksum).0 ++ s
      → k ≡ length (p ∷ ps) + fuel
      → inbound_loop D S k b w
        ≡ inbound_loop D S fuel (offered n (p ∷ ps) b) (settle (record w { input = s }))
  unfolding offer
  loop_offers zero k fuel p ps b w s h l room e f = elim l [ ]
  loop_offers (suc n) zero fuel p ps b w s h l room e f = absurd (omega arith)
  loop_offers (suc n) (suc k) fuel p [] b w s h l room e f =
      let line = proposal_line p in
      let read : w.input ≡ line ++ 13 ∷ s =
        e
        ∙ ap (λ o. ((line ++ 13 ∷ []) ++ o.0) ++ s) (offer-nil n (b.cksum + sum (line ++ 13 ∷ [])))
        ∙ rw (append-nil, append_assoc) in
      let same : k ≡ fuel = omega arith in
      loop_offer D S k p b w s h.0 (omega arith) read
      ∙ rw (same, offer-nil n (b.cksum + sum (line ++ 13 ∷ [])), line_sum b.cksum line)
  loop_offers (suc n) (suc k) fuel p (q ∷ qs) b w s h l room e f =
      let line = proposal_line p in
      let b' : Batch = record {
        proposals = b.proposals ++ received p ∷ [];
        cksum = b.cksum + sum line + 13;
      } in
      let s' = (offer n (q ∷ qs) (b.cksum + sum line + 13)).0 ++ s in
      let read : w.input ≡ line ++ 13 ∷ s' =
        e
        ∙ ap (λ c. ((line ++ 13 ∷ []) ++ (offer n (q ∷ qs) c).0) ++ s) (line_sum b.cksum line)
        ∙ rw (append_assoc, append_assoc) in
      let w' = settle (record w { input = s' }) in
      let room' : length b'.proposals + length (q ∷ qs) ≤ proplimit =
        omega (arith, length-append b.proposals (received p ∷ [])) in
      loop_offer D S k p b w s' h.0 (omega arith) read
      ∙ loop_offers n k fuel q qs b' w' s h.1 (omega arith) room' refl (omega arith)
      ∙ rw (settle_twice D (record w { input = s' }) s, append_assoc, line_sum b.cksum line)

-- The line that ends an offer, as it is read.
abbrev pub end_line : ℕ → List ℕ
end_line cksum = b'F' ∷ b'>' ∷ b' ' ∷ hex_byte (complement cksum)

end_line-IsPlain : (cksum : ℕ) → All IsPlain (end_line cksum)
end_line-IsPlain cksum =
    (omega arith, (omega arith, (omega arith, hex_byte-IsPlain (complement cksum) (omega arith))))

module _ (D : Database) (S : Services) where
  -- The checksum that the sender has written passes the receiver's test.
  on_line_end :
      (ps : List Proposal) (cksum : ℕ) (w : World D)
      → S.gsendmsgonly ≡ false
      → on_line D S (end_line cksum) (record { proposals = ps; cksum = cksum }) w
        ≡ (do answer_batch D S ps; turn D S (end_line cksum) empty_batch) w
  unfolding on_line on_end strbegins strncmp_zero
  on_line_end ps cksum w both =
      let some_length : (suc (suc (suc (length (hex_byte (complement cksum))))) == 0) ≡ false =
        ground arith in
      let sent : (strtoul 16 (b' ' ∷ hex_byte (complement cksum))).0 ≡ complement cksum =
        ap (λ (r : ℕ × List ℕ). r.0) (strtoul-hex_byte (complement cksum) (omega arith)) in
      let same : (complement cksum == complement cksum) ≡ true = ground arith in
      rw (some_length, both, sent, same)

  loop_end :
      (fuel : ℕ) (ps : List Proposal) (cksum : ℕ) (w : World D) (s : List ℕ)
      → S.gsendmsgonly ≡ false
      → w.input ≡ offer_end cksum ++ s
      → inbound_loop D S (suc fuel) (record { proposals = ps; cksum = cksum }) w
        ≡ then_run
            ((do answer_batch D S ps; turn D S (end_line cksum) empty_batch)
              (record w { input = s }))
            (behind D S (inbound_loop D S fuel))
  unfolding inbound_loop offer_end
  loop_end fuel ps cksum w s both e =
      let read : w.input ≡ end_line cksum ++ 13 ∷ s =
        e
        ∙ ap (λ t. b'F' ∷ b'>' ∷ b' ' ∷ t)
            (append_assoc (hex_byte (complement cksum)) (13 ∷ []) s) in
      rw (wl2kgetline-plain D w (end_line cksum) s (end_line-IsPlain cksum) read, inbound_loop)
        (rw (on_line_end ps cksum (record w { input = s }) both))

  -- What b2outboundproposal writes for one to five proposals is read by the other station's
  -- inbound_parser as exactly these with a checksum that fits: behind the offer, with the files of
  -- what was sent before deleted, it answers the proposals as received and goes on with its own
  -- turn. The proposals have code 'C', type 'C' or 'E', sizes that fit their types and ids of at
  -- most twelve ASCII characters, none of them a space, NUL, line feed, carriage return or 0x1e;
  -- the receiver is not in send-only mode.
  pub inbound_loop-offer :
      (fuel : ℕ) (p : Proposal) (ps : List Proposal) (w : World D) (s : List ℕ)
      → S.gsendmsgonly ≡ false
      → All IsLineOffer (p ∷ ps)
      → length (p ∷ ps) ≤ proplimit
      → w.input ≡ (offer proplimit (p ∷ ps) 0).0 ++ (offer_end (offer proplimit (p ∷ ps) 0).1 ++ s)
      → inbound_loop D S (length (p ∷ ps) + suc fuel) empty_batch w
        ≡ then_run
            ((do
              answer_batch D S (map received (p ∷ ps))
              turn D S (end_line (offer proplimit (p ∷ ps) 0).1) empty_batch)
              (settle (record w { input = s })))
            (behind D S (inbound_loop D S fuel))
  inbound_loop-offer fuel p ps w s both h l e =
      let total = (offer proplimit (p ∷ ps) 0).1 in
      loop_offers D S proplimit (length (p ∷ ps) + suc fuel) (suc fuel) p ps empty_batch w
        (offer_end total ++ s) h l (omega arith) e refl
      ∙ loop_end fuel (map received (p ∷ ps)) total
          (settle (record w { input = offer_end total ++ s })) s both refl
