-- ===== src/Tests/Rounds.antt =====
-- Runs of wl2k.c between two stations.
use paclink_unix.Common.{
  ℕ, ◌≡◌, refl, inl, true, false, Option, some, List, [], ◌∷◌, ◌++◌, map, arith, All, length, codes,
}
use paclink_unix.Proposal.{Proposal}
use paclink_unix.Session.{World, Run, then_run, ◌>>◌}
use paclink_unix.Session.Ends.{Stops}
use paclink_unix.Session.Outbound.{
  proplimit, answers, offer, transmit, handle_answers, dodelete, outgoing,
}
use paclink_unix.Session.Agreement.{AllAgree, AreVerdicts, answers-respond}
use paclink_unix.Session.Inbound.{
  empty_batch, answer_batch, turn, deliver, respond_one, respond, receive_all, behind, inbound_loop,
  inbound_parser,
}
use paclink_unix.Session.Inbound.Offer.{received, settle}
use paclink_unix.Session.Inbound.Offer.Whole.{end_line, inbound_loop-offer}
use paclink_unix.Session.Inbound.Ends.{inbound_parser-Stops}
use paclink_unix.Session.Exchange.{messages}
use paclink_unix.Session.Exchange.Messages.{transmit-receive_all}
use paclink_unix.Session.Round.{chosen, answer_batch-handle_answers}
use paclink_unix.Session.Outbound.Deferred.{handle_answers-later}
use paclink_unix.Mid.Hash.{Entry}
use paclink_unix.Session.Again.{respond_one-deliver}
use paclink_unix.Tests.Hash.{log_hash}
use paclink_unix.Tests.Station.{
  proposal, proposal-IsLineOffer, letter, letter-IsSendable, services, offered_lines, station,
  whole, services-IsServing, IsMessage, text_of_message, letter_bytes, letter_sent, recorded_now,
}

inbound_loop-offer_example :
    inbound_loop log_hash services 2 empty_batch station
    ≡ then_run
        ((do
          answer_batch log_hash services (received proposal ∷ [])
          turn log_hash services (end_line (offer proplimit (proposal ∷ []) 0).1) empty_batch)
          (settle (record station { input = [] })))
        (behind log_hash services (inbound_loop log_hash services 0))
inbound_loop-offer_example =
    inbound_loop-offer log_hash services 0 proposal [] station [] refl (proposal-IsLineOffer, tt)
      (omega arith) refl

inbound_parser-Stops_example :
    Stops (length offered_lines) (inbound_parser log_hash services station)
inbound_parser-Stops_example = inbound_parser-Stops log_hash services station

answers-respond_example :
    (cs : List ℕ) × (ps' qs' : List Proposal) × (db : List (List ℕ × Option Entry)) × (respond
        log_hash services
        (proposal ∷ [])
        station
      ≡ Run.ok (cs, ps') (record station { mids = db }))
    × (answers 0 cs (letter ∷ []) ≡ some qs')
    × AllAgree qs' ps'
answers-respond_example =
    answers-respond log_hash services (proposal ∷ []) (letter ∷ []) station (refl, tt) whole refl

answer_batch-handle_answers_example :
    (cs out : List ℕ) × (rs : List Proposal) × AreVerdicts cs rs
    × ((w : World log_hash)
        → (qs : List Proposal) × (handle_answers (b'F' ∷ b'S' ∷ b' ' ∷ cs) (letter ∷ []) w
            ≡ Run.ok tt (record w { output = w.output ++ out; before = w.before ++ qs; next = [] }))
          × All (λ (q : Proposal). q.delete ≡ true) qs)
    × ((v : World log_hash)
        → v.mids ≡ []
        → v.input ≡ out ++ b'F' ∷ b'F' ∷ 13 ∷ []
        → (v' : World log_hash) × (answer_batch log_hash services (received letter ∷ []) v
            ≡ Run.ok tt v')
          × (v'.input ≡ b'F' ∷ b'F' ∷ 13 ∷ [])
          × (v'.output ≡ v.output ++ b'F' ∷ b'S' ∷ b' ' ∷ (cs ++ 13 ∷ []))
          × (v'.delivered ≡ v.delivered ++ map text_of_message (chosen rs (letter ∷ []))))
answer_batch-handle_answers_example =
    answer_batch-handle_answers log_hash log_hash services IsMessage text_of_message
      services-IsServing letter [] [] (b'F' ∷ b'F' ∷ 13 ∷ []) (refl, tt) (letter-IsSendable, tt)
      (omega arith) whole

transmit-receive_all_example :
    (out : List ℕ) × ((w : World log_hash)
      → (qs' : List Proposal) × (transmit 5 (letter ∷ []) w
          ≡ Run.ok qs' (record w { output = w.output ++ out }))
        × All (λ (q : Proposal). q.delete ≡ true) qs')
    × ((v : World log_hash)
        → v.input ≡ out ++ []
        → (v' : World log_hash) × (receive_all log_hash services
              (record proposal { accepted = true } ∷ [])
              v
            ≡ Run.ok tt v')
          × (v'.input ≡ [])
          × (v'.output ≡ v.output)
          × (v'.delivered ≡ v.delivered ++ map text_of_message (messages (letter ∷ []))))
transmit-receive_all_example =
    transmit-receive_all log_hash log_hash services IsMessage text_of_message services-IsServing 5
      (letter ∷ []) (record proposal { accepted = true } ∷ []) [] (omega arith) ((refl, refl), tt)
      (letter-IsSendable, tt)

handle_answers-later_example :
    (w' : World log_hash) × (handle_answers
        (b'F' ∷ b'S' ∷ b' ' ∷ b'L' ∷ [])
        (record letter { path = some (codes "AB") } ∷ [])
        station
      ≡ Run.ok tt w')
    × (w'.output ≡ letter_bytes)
    × (w'.unlinked ≡ [])
    × (w'' : World log_hash) × (dodelete w' ≡ Run.ok tt w'')
    × (w''.unlinked ≡ codes "AB" ∷ [])
unfolding outgoing
handle_answers-later_example =
    handle_answers-later log_hash b'L' (record letter { path = some (codes "AB") }) station
      letter_bytes (codes "AB") (inl refl) refl refl letter_sent

respond_one-deliver_example :
    (v' : World log_hash) × (deliver log_hash services proposal (b'M' ∷ []) station ≡ Run.ok tt v')
    × ((w : World log_hash)
        → w.mids ≡ v'.mids
        → (w' : World log_hash) × (respond_one log_hash services letter w
            ≡ Run.ok (b'N', record letter { accepted = false }) w'))
respond_one-deliver_example =
    respond_one-deliver log_hash services services proposal letter (b'M' ∷ []) station refl
      recorded_now (λ d. refl) refl refl refl
