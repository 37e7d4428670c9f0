-- ===== src/Session/Outbound.antt =====
-- wl2k.c: dodelete and b2outboundproposal.
pub mod Answers
pub mod Deferred
pub mod Ends
use paclink_unix.Common.{
  ℕ, zero, suc, ◌+◌, Bool, true, false, ◌||◌, Option, none, some, List, [], ◌∷◌, ◌++◌, ◌==◌,
  if◌then◌else◌, length, drop,
}
use paclink_unix.Buffer.{Buffer}
use paclink_unix.Strutil.{strbegins}
use paclink_unix.Number.{hex_byte, strtoul, skip_spaces}
use paclink_unix.Proposal.{Proposal, proposal_line}
use paclink_unix.Transfer.{Outgoing, Sent, returned, putcompressed, sum, complement}
use paclink_unix.Mid.Hash.{Database}
use paclink_unix.Session.{
  World, Run, ok, exited, stuck, Action, then_run, ◌>>=◌, ◌>>◌, return, fail, write, next_line,
}

abbrev pub proplimit : ℕ
proplimit = 5

-- One round of `dodelete`: a proposal that is marked and has a file loses both.
unfoldable pub delete_one : Proposal → Proposal
delete_one p = elim p.path [ none ↦ p | some path ↦ record p { delete = false } ]

unfoldable pub doomed : Proposal → List (List ℕ)
doomed p = elim p.path [ none ↦ [] | some path ↦ if p.delete then path ∷ [] else [] ]

unfoldable pub delete_all : List Proposal → List Proposal × List (List ℕ)
delete_all [] = ([], [])
delete_all (p ∷ ps) =
    let (ps', paths) = delete_all ps in
    (if p.delete then delete_one p ∷ ps' else p ∷ ps', doomed p ++ paths)

-- `dodelete(&oproplist, &nproplist)`: from the head of the list up to `nproplist`.
unfoldable pub dodelete : {D : Database} → Action D (Unit {0})
dodelete w =
    let (ps, paths) = delete_all w.before in
    ok tt (record w { before = ps; unlinked = w.unlinked ++ paths })

-- The lines of at most `n` proposals, and the sum of their bytes added to `cksum`.
unfoldable pub offer : ℕ → List Proposal → ℕ → List ℕ × ℕ
offer zero ps cksum = ([], cksum)
offer (suc n) [] cksum = ([], cksum)
offer (suc n) (p ∷ ps) cksum =
    let sp = proposal_line p ++ 13 ∷ [] in
    let (out, total) = offer n ps (cksum + sum sp) in (sp ++ out, total)

-- `F> %02X\r`
unfoldable pub offer_end : ℕ → List ℕ
offer_end cksum = b'F' ∷ b'>' ∷ b' ' ∷ (hex_byte (complement cksum) ++ 13 ∷ [])

-- `while (strbegins(line, prefix))`: such lines are passed over.
unfoldable pub skip_lines : {D : Database} → ℕ → List ℕ → List ℕ → Action D (List ℕ)
skip_lines zero prefix line = λ w. stuck
skip_lines (suc fuel) prefix line =
    let again : Action _ (List ℕ) = (do line' ← next_line; skip_lines fuel prefix line') in
    if strbegins line prefix then again else return line

-- What one character of the "FS" line says about a proposal.
pub data Answer : Type 0 where
  take_it : Answer
  have_it : Answer
  later : Answer
  from_offset : Answer
  unknown : Answer

unfoldable pub answer_of : ℕ → Answer
answer_of c =
    if c == b'Y' || c == b'y' || c == b'H' || c == b'h' || c == b'+'
    then take_it
    else (if c == b'N' || c == b'n' || c == b'R' || c == b'r' || c == b'-'
        then have_it
        else (if c == b'L' || c == b'l' || c == b'='
            then later
            else (if c == b'A' || c == b'a' || c == b'!' then from_offset else unknown)))

-- The proposal behind one answer, and the string behind it. At an offset answer `strtoul` is called
-- on the answer's own character, and the loop goes on at its `endp`. `none` is "B2 protocol error 3".
unfoldable pub answer_one : ℕ → List ℕ → Proposal → Option (Proposal × List ℕ)
answer_one c cp p =
    let cleared = record p { accepted = false; delete = false; offset = 0 } in
    elim (answer_of c) [
      | take_it ↦ some (record cleared { accepted = true }, cp)
      | have_it ↦ some (record cleared { delete = true }, cp)
      | later ↦ some (cleared, cp)
      | from_offset ↦ some (
        record cleared { accepted = true; offset = (strtoul 10 (c ∷ cp)).0 },
        (strtoul 10 (c ∷ cp)).1,
      )
      | unknown ↦ none
    ]

-- `while (*cp && prop)`; `i` is tested against PROPLIMIT and never counted up. `none` is an exit.
unfoldable pub answers : ℕ → List ℕ → List Proposal → Option (List Proposal)
answers i [] ps = some ps
answers i (c ∷ cp) [] = some []
answers i (c ∷ cp) (p ∷ ps) =
    let rest : Option (List Proposal) = elim (answer_one c cp p) [
      | none ↦ none
      | some (p', cp') ↦ elim (answers i cp' ps) [ none ↦ none | some ps' ↦ some (p' ∷ ps') ]
    ] in
    if i == proplimit then none else rest

-- What `putcompressed` reads of a proposal; prepare_outbound_proposals sets title and buffer.
unfoldable pub outgoing : Proposal → Outgoing
outgoing p = record {
  title = elim p.title [ none ↦ [] | some t ↦ t ];
  offset = p.offset;
  csize = p.csize;
  data_bytes = elim p.cbuf [ none ↦ [] | some b ↦ b.block ];
}

-- The last loop's body: every proposal whose `delete` is 0 is sent and marked.
unfoldable pub transmit_one : {D : Database} → Proposal → Action D Proposal
transmit_one p w =
    let send : Run _ Proposal = elim (putcompressed (outgoing p)) [
      | returned out ↦ ok (record p { delete = true }) (record w { output = w.output ++ out })
      | Sent.exited out ↦ exited (record w { output = w.output ++ out })
    ] in
    if p.delete then ok p w else send

-- At most `n` proposals; the result is the list with these handled.
unfoldable pub transmit : {D : Database} → ℕ → List Proposal → Action D (List Proposal)
transmit zero ps = return []
transmit (suc n) [] = return []
transmit (suc n) (p ∷ ps) = do p' ← transmit_one p; ps' ← transmit n ps; return (p' ∷ ps')

-- What follows the "FS ": the answers, then the messages. `nproplist` moves behind what was handled.
unfoldable pub handle_answers : {D : Database} → List ℕ → List Proposal → Action D (Unit {0})
handle_answers line ps w = elim (answers 0 (skip_spaces (drop 3 line)) ps) [
  | none ↦ exited w
  | some ps' ↦
      (do
        handled ← transmit proplimit ps'
        λ w'. ok tt (record w' { before = w'.before ++ handled; next = drop proplimit ps' }))
        w
]

unfoldable pub is_empty : List Proposal → Bool
is_empty [] = true
is_empty (p ∷ ps) = false

-- The branch with proposals: the offer, and the other station's answer to it.
unfoldable pub offer_all : {D : Database} → List Proposal → Action D (Unit {0})
offer_all ps = do
  let (lines, cksum) = offer proplimit ps 0
  write (lines ++ offer_end cksum)
  λ w.
      (do
        line₀ ← next_line
        line₁ ← skip_lines (suc (length w.input)) (b';' ∷ b'P' ∷ b'M' ∷ b':' ∷ []) line₀
        line ← skip_lines (suc (length w.input)) (b';' ∷ b'F' ∷ b'W' ∷ b':' ∷ []) line₁
        if strbegins line (b'F' ∷ b'S' ∷ b' ' ∷ []) then handle_answers line ps else fail)
        w

-- The result is `true` for 0 and `false` for -1. A line read takes a byte at least, so the input's
-- length bounds the lines that are passed over.
unfoldable pub b2outboundproposal : {D : Database} → List ℕ → Action D Bool
b2outboundproposal lastcommand w =
    let offered : Run _ Bool = then_run (offer_all w.next w) (λ _. return true) in
    let finish : Run _ Bool = (do write (b'F' ∷ b'Q' ∷ 13 ∷ []); return false) w in
    let idle : Run _ Bool = (do write (b'F' ∷ b'F' ∷ 13 ∷ []); return true) w in
    if is_empty w.next
    then (if strbegins lastcommand (b'F' ∷ b'F' ∷ []) then finish else idle)
    else offered
