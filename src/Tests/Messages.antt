-- ===== src/Tests/Messages.antt =====
-- Runs of wl2k.c on proposals, answers and one message.
use paclink_unix.Common.{ℕ, ◌≡◌, refl, some, List, [], ◌∷◌, ◌++◌, arith}
use paclink_unix.Buffer.{Buffer}
use paclink_unix.Buffer.Contents.{IsValid, contents}
use paclink_unix.Proposal.{parse_proposal, proposal_line}
use paclink_unix.Proposal.RoundTrip.{parse_proposal-proposal_line}
use paclink_unix.Stream.{ok}
use paclink_unix.Transfer.{putcompressed, getcompressed, returned}
use paclink_unix.Transfer.RoundTrip.{getcompressed-putcompressed}
use paclink_unix.Tests.Hash.{full_memory}
use paclink_unix.Tests.Station.{proposal, proposal-IsOffer}
use paclink_unix.Tests.Codec.{message}

parse_proposal-proposal_line_example : parse_proposal (proposal_line proposal) ≡ some proposal
parse_proposal-proposal_line_example = parse_proposal-proposal_line proposal proposal-IsOffer

getcompressed-putcompressed_example :
    (out : List ℕ) × (b : Buffer) × (putcompressed
        (record { title = b'T' ∷ []; offset = 0; csize = 8; data_bytes = message ++ 9 ∷ [] })
      ≡ returned out)
    × (getcompressed full_memory (out ++ b'F' ∷ []) ≡ ok b (b'F' ∷ []))
    × IsValid b
    × (contents b ≡ message)
    × (b.i ≡ 0)
getcompressed-putcompressed_example =
    getcompressed-putcompressed full_memory (λ n. refl) (b'T' ∷ []) message (9 ∷ []) (b'F' ∷ [])
      (omega arith, tt)
      (
        omega arith,
        (
          omega arith,
          (
            omega arith,
            (omega arith, (omega arith, (omega arith, (omega arith, (omega arith, tt))))),
          ),
        ),
      )
      (omega arith) (omega arith)
