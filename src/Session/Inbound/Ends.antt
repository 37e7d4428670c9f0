-- ===== src/Session/Inbound/Ends.antt =====
-- wl2k.c: the ends of inbound_parser.
use paclink_unix.Common.{
  ℕ, zero, suc, ◌+◌, ◌≤◌, ◌<◌, Bool, true, false, ◌||◌, Option, none, some, List, [], ◌∷◌, ◌++◌,
  arith, ◌==◌, if◌then◌else◌, length, drop,
}
use paclink_unix.Strutil.{strbegins}
use paclink_unix.Number.{strtoul}
use paclink_unix.Proposal.{Proposal, parse_proposal}
use paclink_unix.Transfer.{getcompressed, complement, sum}
use paclink_unix.Transfer.Ends.{getcompressed-Ends}
use paclink_unix.Mid.Hash.{Database}
use paclink_unix.Mid.{Check, found, not_found, failed, halted, check_mid}
use paclink_unix.Session.{World, Run, ok, exited, Action, ◌>>=◌, return, fail}
use paclink_unix.Session.Outbound.{proplimit, dodelete}
use paclink_unix.Session.Inbound.{
  Services, Batch, Round, again, result, empty_batch, Delivery, delivered, no_child, undelivered,
  respond_one, respond, deliver, receive_one, receive_all, answer_batch, on_offer, turn, on_end,
  on_line, behind, inbound_loop, inbound_parser,
}
use paclink_unix.Session.Ends.{
  Stops, Stops-le, Stops-then, Stops-if, IsStopping, bind-IsStopping, if-IsStopping,
  return-IsStopping, fail-IsStopping, write-IsStopping, dodelete-IsStopping, wl2kgetline_shorter,
  receive-IsStopping,
}
use paclink_unix.Session.Outbound.Ends.{outbound-IsStopping}

module _ (D : Database) (S : Services) where
  respond_one-IsStopping : (p : Proposal) → IsStopping {D = D} (respond_one D S p)
  unfolding respond_one
  respond_one-IsStopping p w =
      Stops-if (length w.input) (p.code == b'C') _ _ (by_answer (check_mid D S.now p.mid w.mids).0)
        (omega arith)
    where
      w' : World D
      w' = record w { mids = (check_mid D S.now p.mid w.mids).1 }

      no : Proposal
      no = record p { accepted = false }

      by_answer :
          (c : Check)
          → Stops (length w.input) (elim c as (λ _. Run D (ℕ × Proposal)) [
            | found ↦ ok (b'N', no) w'
            | not_found ↦ ok (b'Y', record p { accepted = true }) w'
            | failed ↦ ok (b'N', no) w'
            | halted ↦ exited w'
          ])
      by_answer found = omega arith
      by_answer not_found = omega arith
      by_answer failed = omega arith
      by_answer halted = tt

  respond-IsStopping : (ps : List Proposal) → IsStopping {D = D} (respond D S ps)
  unfolding respond
  respond-IsStopping [] = return-IsStopping D {A = List ℕ × List Proposal} ([], [])
  respond-IsStopping (p ∷ ps) = bind-IsStopping _ _ (respond_one-IsStopping p) (λ r.
      bind-IsStopping _ _ (respond-IsStopping ps)
        (λ rs. return-IsStopping D {A = List ℕ × List Proposal} (r.0 ∷ rs.0, r.1 ∷ rs.1)))

  deliver-IsStopping : (p : Proposal) (mime : List ℕ) → IsStopping {D = D} (deliver D S p mime)
  unfolding deliver
  deliver-IsStopping p mime w = by_sendmail (S.sendmail mime) _ _ (omega arith)
    where
      by_sendmail :
          (s : Delivery) (sent recorded : World D)
          → length recorded.input ≤ length w.input
          → Stops (length w.input) (elim s as (λ _. Run D (Unit {0})) [
            | delivered ↦ ok tt recorded
            | no_child ↦ ok tt recorded
            | undelivered ↦ exited sent
          ])
      by_sendmail delivered sent recorded h = h
      by_sendmail no_child sent recorded h = h
      by_sendmail undelivered sent recorded h = tt

  or_fail-IsStopping :
      {A : Type 0} (o : Option A)
      → IsStopping {D = D} (elim o as (λ _. Action D A) [ none ↦ fail | some a ↦ return a ])
  or_fail-IsStopping none w = tt
  or_fail-IsStopping (some a) w = omega arith

  receive_one-IsStopping : (p : Proposal) → IsStopping {D = D} (receive_one D S p)
  unfolding receive_one
  receive_one-IsStopping p =
      bind-IsStopping _ _
        (receive-IsStopping D (getcompressed S.memory) (getcompressed-Ends S.memory))
        (λ cbuf. bind-IsStopping _ _ (or_fail-IsStopping (S.version_1_decode cbuf)) (λ ubuf.
          bind-IsStopping _ _ (or_fail-IsStopping (S.wl2mime ubuf))
            (λ mime. deliver-IsStopping p mime)))

  receive_all-IsStopping : (ps : List Proposal) → IsStopping {D = D} (receive_all D S ps)
  unfolding receive_all
  receive_all-IsStopping [] = return-IsStopping D tt
  receive_all-IsStopping (p ∷ ps) =
      if-IsStopping p.accepted _ _
        (bind-IsStopping _ _ (receive_one-IsStopping p) (λ _. receive_all-IsStopping ps))
        (receive_all-IsStopping ps)

  answer_batch-IsStopping : (ps : List Proposal) → IsStopping {D = D} (answer_batch D S ps)
  unfolding answer_batch
  answer_batch-IsStopping [] = return-IsStopping D tt
  answer_batch-IsStopping (p ∷ ps) =
      bind-IsStopping _ _ (respond-IsStopping (p ∷ ps))
        (λ r. bind-IsStopping _ _ (write-IsStopping D _) (λ _. receive_all-IsStopping r.1))

  turn-IsStopping : (line : List ℕ) (b : Batch) → IsStopping {D = D} (turn D S line b)
  unfolding turn
  turn-IsStopping line b =
      bind-IsStopping _ _ (outbound-IsStopping D line)
        (λ more. return-IsStopping D {A = Round} (if more then again b else result false))

  on_offer-IsStopping : (line : List ℕ) (b : Batch) → IsStopping {D = D} (on_offer D S line b)
  unfolding on_offer
  on_offer-IsStopping line b = bind-IsStopping _ _ (dodelete-IsStopping D) (λ _.
      if-IsStopping (length b.proposals == proplimit) _ _ (fail-IsStopping D Round)
        (by_parse (parse_proposal line)))
    where
      by_parse :
          (o : Option Proposal)
          → IsStopping {D = D} (elim o as (λ _. Action D Round) [
            | none ↦ fail
            | some p ↦ return (
                again
                  (record { proposals = b.proposals ++ p ∷ []; cksum = b.cksum + sum line + 13 }))
          ])
      by_parse none w = tt
      by_parse (some p) w = omega arith

  on_end-IsStopping : (line : List ℕ) (b : Batch) → IsStopping {D = D} (on_end D S line b)
  unfolding on_end
  on_end-IsStopping line b =
      if-IsStopping S.gsendmsgonly _ _
        (bind-IsStopping _ _ (write-IsStopping D _) (λ _. return-IsStopping D (again b)))
        (if-IsStopping ((strtoul 16 (drop 2 line)).0 == complement b.cksum) _ _
          (bind-IsStopping _ _ (answer_batch-IsStopping b.proposals)
            (λ _. turn-IsStopping line empty_batch))
          (fail-IsStopping D Round))

  tidy-IsStopping :
      {A : Type 0} (k : Action D A) → IsStopping k → IsStopping {D = D} (dodelete >>= λ _. k)
  tidy-IsStopping k h = bind-IsStopping _ _ (dodelete-IsStopping D) (λ _. h)

  on_line-IsStopping : (line : List ℕ) (b : Batch) → IsStopping {D = D} (on_line D S line b)
  unfolding on_line
  on_line-IsStopping line b =
      if-IsStopping {A = Round} (strbegins line (b';' ∷ []) || length line == 0) _ _
        (return-IsStopping D (again b))
        (if-IsStopping {A = Round} (strbegins line (b'F' ∷ b'C' ∷ [])) _ _
          (on_offer-IsStopping line b)
          (if-IsStopping {A = Round} (strbegins line (b'F' ∷ b'F' ∷ [])) _ _
            (tidy-IsStopping _ (turn-IsStopping line b))
            (if-IsStopping {A = Round} (strbegins line (b'B' ∷ [])) _ _
              (return-IsStopping D (result false))
              (if-IsStopping {A = Round} (strbegins line (b'F' ∷ b'Q' ∷ [])) _ _
                (tidy-IsStopping _ (return-IsStopping D (result false)))
                (if-IsStopping {A = Round} (strbegins line (b'F' ∷ b'>' ∷ [])) _ _
                  (on_end-IsStopping line b)
                  (if-IsStopping {A = Round} (S.stray_byte line == b'>') _ _
                    (tidy-IsStopping _ (turn-IsStopping line b)) (fail-IsStopping D Round)))))))

  behind-Stops :
      (n : ℕ) (loop : Batch → Action D Bool) (r : Round) (u : World D)
      → length u.input ≤ n
      → ((b : Batch) → Stops n (loop b u))
      → Stops n (behind D S loop r u)
  unfolding behind
  behind-Stops n loop (again b) u l h = h b
  behind-Stops n loop (result v) u l h = l

  inbound_loop-Stops :
      (fuel : ℕ) (b : Batch) (w : World D)
      → length w.input < fuel
      → Stops (length w.input) (inbound_loop D S fuel b w)
  unfolding inbound_loop
  inbound_loop-Stops zero b w h = elim h [ ]
  inbound_loop-Stops (suc fuel) b w h = wl2kgetline_shorter D _ w tt (λ line v l.
      Stops-le (length v.input) (length w.input) _ (omega arith) (
        Stops-then (length v.input) (on_line D S line b v) _ (on_line-IsStopping line b v) (λ r u k.
          behind-Stops (length v.input) (inbound_loop D S fuel) r u k (λ b'.
            Stops-le (length u.input) (length v.input) _ k
              (inbound_loop-Stops fuel b' u (omega arith))))))

  -- On every input, whatever the database, the decoder, the converter and sendmail answer,
  -- inbound_parser comes to one of its ends, a result or an exit of the process, and it leaves no
  -- more of the input than there was.
  pub inbound_parser-Stops : (w : World D) → Stops (length w.input) (inbound_parser D S w)
  unfolding inbound_parser
  inbound_parser-Stops w = inbound_loop-Stops (suc (length w.input)) empty_batch w (omega arith)
