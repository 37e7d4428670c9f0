-- ===== src/Session/Inbound.antt =====
-- wl2k.c: inbound_parser.
pub mod Lines
pub mod Offer
pub mod Ends
use paclink_unix.Common.{
  ℕ, zero, suc, ◌+◌, Bool, true, false, ◌||◌, Option, none, some, List, [], ◌∷◌, ◌++◌, ◌==◌,
  if◌then◌else◌, length, drop,
}
use paclink_unix.Buffer.{Memory, Buffer}
use paclink_unix.Strutil.{strbegins}
use paclink_unix.Number.{strtoul}
use paclink_unix.Proposal.{Proposal, parse_proposal}
use paclink_unix.Transfer.{getcompressed, sum, complement}
use paclink_unix.Mid.Hash.{Database}
use paclink_unix.Mid.{Check, found, not_found, failed, halted, check_mid, record_mid}
use paclink_unix.Session.{
  World, Run, ok, exited, stuck, Action, then_run, ◌>>=◌, ◌>>◌, return, fail, write, wl2kgetline,
  receive,
}
use paclink_unix.Session.Outbound.{proplimit, dodelete, b2outboundproposal}

-- What pclose reports of sendmail: 0, an error ECHILD, or anything else, on which the program exits.
pub data Delivery : Type 0 where
  delivered no_child undelivered : Delivery

-- The parts that the parser calls: the clock, version_1_Decode, wl2mime, sendmail, and the byte that
-- `line[strlen(line - 1)]` reads, an index that does not depend on the line's own bytes alone.
pub record Services : Type 0 where
  pub memory : Memory
  pub now : ℕ
  pub version_1_decode : Buffer → Option Buffer
  pub wl2mime : Buffer → Option (List ℕ)
  pub sendmail : List ℕ → Delivery
  pub stray_byte : List ℕ → ℕ
  pub gsendmsgonly : Bool

-- The locals that a round leaves to the next: the proposals of the array, and `proposalcksum`.
pub record Batch : Type 0 where
  pub proposals : List Proposal
  pub cksum : ℕ

-- What a line makes of the round: on with this batch, or the function's result.
pub data Round : Type 0 where
  again : Batch → Round
  result : Bool → Round

abbrev pub empty_batch : Batch
empty_batch = record { proposals = []; cksum = 0 }

module _ (D : Database) (S : Services) where
  -- The answer to one proposal: 'N' if its id is known or the database fails, 'Y', or 'L' for a code
  -- that is not 'C'.
  unfoldable pub respond_one : Proposal → Action D (ℕ × Proposal)
  respond_one p w =
      let refused = record p { accepted = false } in
      let (answer, db) = check_mid D S.now p.mid w.mids in
      let w' = record w { mids = db } in
      let checked : Run D (ℕ × Proposal) = elim answer [
        | found ↦ ok (b'N', refused) w'
        | not_found ↦ ok (b'Y', record p { accepted = true }) w'
        | failed ↦ ok (b'N', refused) w'
        | halted ↦ exited w'
      ] in
      if p.code == b'C' then checked else ok (b'L', refused) w

  unfoldable pub respond : List Proposal → Action D (List ℕ × List Proposal)
  respond [] = return ([], [])
  respond (p ∷ ps) = do (c, p') ← respond_one p; (cs, ps') ← respond ps; return (c ∷ cs, p' ∷ ps')

  -- One accepted message: received, unpacked, converted, given to sendmail, its id recorded.
  unfoldable pub deliver : Proposal → List ℕ → Action D (Unit {0})
  deliver p mime w =
      let sent = record w { delivered = w.delivered ++ mime ∷ [] } in
      let recorded = record sent { mids = (record_mid D S.now p.mid sent.mids).1 } in
      elim (S.sendmail mime) [
        | delivered ↦ ok tt recorded
        | no_child ↦ ok tt recorded
        | undelivered ↦ exited sent
      ]

  unfoldable pub receive_one : Proposal → Action D (Unit {0})
  receive_one p = do
    cbuf ← receive (getcompressed S.memory)
    let unpack : Action D Buffer = elim (S.version_1_decode cbuf) [
      | none ↦ fail
      | some b ↦ return b
    ]
    ubuf ← unpack
    let convert : Action D (List ℕ) = elim (S.wl2mime ubuf) [ none ↦ fail | some m ↦ return m ]
    mime ← convert
    deliver p mime

  unfoldable pub receive_all : List Proposal → Action D (Unit {0})
  receive_all [] = return tt
  receive_all (p ∷ ps) = if p.accepted then (do receive_one p; receive_all ps) else receive_all ps

  -- `if (proposals != 0)`: the "FS" line, then the messages.
  unfoldable pub answer_batch : List Proposal → Action D (Unit {0})
  answer_batch [] = return tt
  answer_batch (p ∷ ps) = do
    (cs, ps') ← respond (p ∷ ps)
    write (b'F' ∷ b'S' ∷ b' ' ∷ (cs ++ 13 ∷ []))
    receive_all ps'

  unfoldable pub on_offer : List ℕ → Batch → Action D Round
  on_offer line b = do
    dodelete
    let added : Action D Round = elim (parse_proposal line) [
      | none ↦ fail
      | some p ↦
          return
            (again (record { proposals = b.proposals ++ p ∷ []; cksum = b.cksum + sum line + 13 }))
    ]
    if length b.proposals == proplimit then fail else added

  -- `if ((b2outret = b2outboundproposal(...)) != 0) return b2outret;`
  unfoldable pub turn : List ℕ → Batch → Action D Round
  turn line b = do more ← b2outboundproposal line; return (if more then again b else result false)

  unfoldable pub on_end : List ℕ → Batch → Action D Round
  on_end line b =
      let checked : Action D Round = (do answer_batch b.proposals; turn line empty_batch) in
      if S.gsendmsgonly
      then (do write (b'F' ∷ b'F' ∷ 13 ∷ []); return (again b))
      else (if (strtoul 16 (drop 2 line)).0 == complement b.cksum then checked else fail)

  -- The ladder of `strbegins` tests on one line.
  unfoldable pub on_line : List ℕ → Batch → Action D Round
  on_line line b =
      if strbegins line (b';' ∷ []) || length line == 0
      then return (again b)
      else (if strbegins line (b'F' ∷ b'C' ∷ [])
          then on_offer line b
          else (if strbegins line (b'F' ∷ b'F' ∷ [])
              then (do dodelete; turn line b)
              else (if strbegins line (b'B' ∷ [])
                  then return (result false)
                  else (if strbegins line (b'F' ∷ b'Q' ∷ [])
                      then (do dodelete; return (result false))
                      else (if strbegins line (b'F' ∷ b'>' ∷ [])
                          then on_end line b
                          else (if S.stray_byte line == b'>'
                              then (do dodelete; turn line b)
                              else fail))))))

  -- What comes behind a round, where `loop` is the loop's next round.
  unfoldable pub behind : (Batch → Action D Bool) → Round → Action D Bool
  behind loop (again b) = loop b
  behind loop (result v) = return v

  -- The `while` loop. Each round reads a line, which takes a byte at least.
  unfoldable pub inbound_loop : ℕ → Batch → Action D Bool
  inbound_loop zero b = λ w. stuck
  inbound_loop (suc fuel) b = do
    line ← wl2kgetline
    let round : List ℕ → Action D Bool = λ s. (do r ← on_line s b; behind (inbound_loop fuel) r)
    elim line [ none ↦ fail | some s ↦ round s ]

  unfoldable pub inbound_parser : Action D Bool
  inbound_parser w = inbound_loop (suc (length w.input)) empty_batch w
