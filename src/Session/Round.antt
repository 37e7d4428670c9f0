-- ===== src/Session/Round.antt =====
-- wl2k.c: a whole round of two stations, from the answers to an offer to the delivered messages.
use paclink_unix.Common.{
  ℕ, suc, ◌≤◌, ◌≡◌, refl, ap, ◌∙◌, true, some, List, [], ◌∷◌, ◌++◌, map, arith, if◌then◌else◌, All,
  length, drop-length, length-map, codes,
}
use paclink_unix.Strutil.{isspace}
use paclink_unix.Number.{skip_spaces}
use paclink_unix.Proposal.{Proposal}
use paclink_unix.Mid.Hash.{Database}
use paclink_unix.Session.{World, ok, write}
use paclink_unix.Session.Outbound.{
  proplimit, Answer, take_it, have_it, later, from_offset, unknown, outgoing, answers, answer_of,
  transmit, handle_answers,
}
use paclink_unix.Session.Outbound.Answers.{answered, answered_all, answers_simple}
use paclink_unix.Session.Agreement.{
  IsWhole, AllAgree, AreVerdicts, AreVerdicts-IsSimple, AreVerdicts-AllAgree, respond_answers,
}
use paclink_unix.Session.Inbound.{Services, respond, receive_all, answer_batch}
use paclink_unix.Session.Inbound.Offer.{received}
use paclink_unix.Session.Exchange.{IsSendable, message_of, IsServing, messages}
use paclink_unix.Session.Exchange.Messages.{transmit-receive_all}

-- The messages of the proposals that the receiver has accepted.
abbrev pub chosen : List Proposal → List Proposal → List (List ℕ)
chosen [] qs = []
chosen (p ∷ ps) [] = []
chosen (p ∷ ps) (q ∷ qs) = if p.accepted then message_of q ∷ chosen ps qs else chosen ps qs

message_of-answered : (a : Answer) (q : Proposal) → message_of (answered a q) ≡ message_of q
unfolding outgoing
message_of-answered take_it q = refl
message_of-answered have_it q = refl
message_of-answered later q = refl
message_of-answered from_offset q = refl
message_of-answered unknown q = refl

module _ (encoded : List ℕ → Type 0) where
  -- A message that is the same as a sendable one is sendable if it is sent from its start.
  IsSendable-outgoing :
      (q q' : Proposal)
      → (outgoing q').title ≡ (outgoing q).title
      → (outgoing q').data_bytes ≡ (outgoing q).data_bytes
      → q'.offset ≡ 0
      → q'.csize ≡ q.csize
      → IsSendable encoded q
      → IsSendable encoded q'
  IsSendable-outgoing q q' t d o c h = record {
    titled = rw t h.titled;
    from_start = o;
    counted = rw (d, c) h.counted;
    bytes = rw (d, c) h.bytes;
    packed = rw (d, c) h.packed;
    long = rw c h.long;
    fits = rw c h.fits;
  }

  answered-IsSendable :
      (a : Answer) (q : Proposal) → IsSendable encoded q → IsSendable encoded (answered a q)
  unfolding outgoing
  answered-IsSendable take_it q h = IsSendable-outgoing q (answered take_it q) refl refl refl refl h
  answered-IsSendable have_it q h = IsSendable-outgoing q (answered have_it q) refl refl refl refl h
  answered-IsSendable later q h = IsSendable-outgoing q (answered later q) refl refl refl refl h
  answered-IsSendable from_offset q h =
      IsSendable-outgoing q (answered from_offset q) refl refl refl refl h
  answered-IsSendable unknown q h = IsSendable-outgoing q (answered unknown q) refl refl refl refl h

  answered_all-IsSendable :
      (cs : List ℕ) (qs : List Proposal)
      → All (IsSendable encoded) qs
      → All (IsSendable encoded) (answered_all cs qs)
  answered_all-IsSendable [] qs h = h
  answered_all-IsSendable (c ∷ cs) [] h = h
  answered_all-IsSendable (c ∷ cs) (q ∷ qs) h =
      (answered-IsSendable (answer_of c) q h.0, answered_all-IsSendable cs qs h.1)

length-answered_all : (cs : List ℕ) (qs : List Proposal) → length (answered_all cs qs) ≡ length qs
length-answered_all [] qs = refl
length-answered_all (c ∷ cs) [] = refl
length-answered_all (c ∷ cs) (q ∷ qs) = ap suc (length-answered_all cs qs)

-- The sender's marks choose the messages that the receiver has accepted.
messages-chosen : (ps qs : List Proposal) → AllAgree qs ps → messages qs ≡ chosen ps qs
messages-chosen [] [] h = refl
messages-chosen [] (q ∷ qs) h = elim h [ ]
messages-chosen (p ∷ ps) [] h = elim h [ ]
messages-chosen (p ∷ ps) (q ∷ qs) h = ground (arith, messages-chosen ps qs h.1, h.0.0)

chosen-answered_all :
    (cs : List ℕ) (ps qs : List Proposal) → chosen ps (answered_all cs qs) ≡ chosen ps qs
chosen-answered_all [] ps qs = refl
chosen-answered_all (c ∷ cs) [] qs = refl
chosen-answered_all (c ∷ cs) (p ∷ ps) [] = refl
chosen-answered_all (c ∷ cs) (p ∷ ps) (q ∷ qs) =
    rw (message_of-answered (answer_of c) q, chosen-answered_all cs ps qs)

verdicts_text : (cs : List ℕ) (ps : List Proposal) → AreVerdicts cs ps → skip_spaces cs ≡ cs
unfolding skip_spaces isspace
verdicts_text [] ps h = refl
verdicts_text (c ∷ cs) [] h = elim h [ ]
verdicts_text (c ∷ cs) (p ∷ ps) h = ground (arith, h.0)

length-received : (ps : List Proposal) → length (map received ps) ≡ length ps
length-received ps = length-map ps received

received_codes :
    (ps : List Proposal)
    → All (λ (p : Proposal). p.code ≡ b'C') ps
    → All (λ (p : Proposal). p.code ≡ b'C') (map received ps)
received_codes [] h = tt
received_codes (p ∷ ps) h = (h.0, received_codes ps h.1)

handle_answers_sent :
    (D : Database) (cs : List ℕ) (ps qs qs' : List Proposal) (w w' : World D)
    → skip_spaces cs ≡ cs
    → answers 0 cs ps ≡ some qs
    → transmit proplimit qs w ≡ ok qs' w'
    → length qs ≤ proplimit
    → handle_answers (b'F' ∷ b'S' ∷ b' ' ∷ cs) ps w
      ≡ ok tt (record w' { before = w'.before ++ qs'; next = [] })
unfolding handle_answers
handle_answers_sent D cs ps qs qs' w w' text read run l =
    rw (text, read, handle_answers) (rw (run) (rw (drop-length proplimit qs l)))

answer_batch_received :
    (E : Database) (S : Services) (p : Proposal) (ps rs : List Proposal) (cs : List ℕ)
    (v v₁ v₂ : World E)
    → respond E S (p ∷ ps) v ≡ ok (cs, rs) v₁
    → receive_all E S rs (record v₁ { output = v₁.output ++ b'F' ∷ b'S' ∷ b' ' ∷ (cs ++ 13 ∷ []) })
      ≡ ok tt v₂
    → answer_batch E S (p ∷ ps) v ≡ ok tt v₂
unfolding answer_batch write
answer_batch_received E S p ps rs cs v v₁ v₂ answered run = rw (answered, answer_batch) run

module _ (D E : Database) (S : Services) (encoded : List ℕ → Type 0) (mime : List ℕ → List ℕ)
    (serving : IsServing S encoded mime) where
  -- A whole round between two stations: one has offered one to five proposals of code 'C', whose
  -- messages are sendable (a title with no NUL, at least six bytes, of the kind `encoded` that the
  -- receiver takes), and the other has read them, and no entry of its database has a wrong size.
  -- The receiver writes an FS line; the sender that reads it writes its messages and marks all the
  -- proposals as done; and the receiver that gets what the sender writes delivers exactly the
  -- messages whose proposals it has accepted, in their order, and leaves what follows. The
  -- receiver's memory is granted, its decoder and converter take every valid buffer at its start
  -- that holds a message of the kind `encoded`, and sendmail takes what it is given.
  pub answer_batch-handle_answers :
      (p : Proposal) (ps : List Proposal) (db : E.Db) (rest : List ℕ)
      → All (λ (q : Proposal). q.code ≡ b'C') (p ∷ ps)
      → All (IsSendable encoded) (p ∷ ps)
      → length (p ∷ ps) ≤ proplimit
      → IsWhole E db
      → (cs out : List ℕ) × (rs : List Proposal) × AreVerdicts cs rs
        × ((w : World D)
            → (qs : List Proposal) × (handle_answers (b'F' ∷ b'S' ∷ b' ' ∷ cs) (p ∷ ps) w
                ≡ ok tt (record w { output = w.output ++ out; before = w.before ++ qs; next = [] }))
              × All (λ (q : Proposal). q.delete ≡ true) qs)
        × ((v : World E)
            → v.mids ≡ db
            → v.input ≡ out ++ rest
            → (v' : World E) × (answer_batch E S (map received (p ∷ ps)) v ≡ ok tt v')
              × (v'.input ≡ rest)
              × (v'.output ≡ v.output ++ b'F' ∷ b'S' ∷ b' ' ∷ (cs ++ 13 ∷ []))
              × (v'.delivered ≡ v.delivered ++ map mime (chosen rs (p ∷ ps))))
  answer_batch-handle_answers p ps db rest codes sendable l whole =
      let all = p ∷ ps in
      let (cs, rs, db', respond_run, verdicts, len) =
        respond_answers E S (map received all) db (received_codes all codes) whole in
      let count : length cs ≡ length all = len ∙ length-received all in
      let qs = answered_all cs all in
      let agree = AreVerdicts-AllAgree cs rs all verdicts count in
      let few : length qs ≤ proplimit = omega (arith, length-answered_all cs all) in
      let (out, sends, receives) =
        transmit-receive_all D E S encoded mime serving proplimit qs rs rest few agree
          (answered_all-IsSendable encoded cs all sendable) in
      let picked : messages qs ≡ chosen rs all =
        messages-chosen rs qs agree ∙ chosen-answered_all cs rs all in
      (
        cs,
        out,
        rs,
        verdicts,
        λ w.
            (let (qs', run, marked) = sends w in
              (
                qs',
                handle_answers_sent D cs all qs qs' w _ (verdicts_text cs rs verdicts)
                    (answers_simple cs all (AreVerdicts-IsSimple cs rs verdicts)) run few,
                marked,
              )),
        λ v m e.
            (let (v', run, left, quiet, given) =
                receives
                  (record v {
                    mids = db';
                    output = v.output ++ b'F' ∷ b'S' ∷ b' ' ∷ (cs ++ 13 ∷ []);
                  })
                  e in
              (
                v',
                answer_batch_received E S (received p) (map received ps) rs cs v _ v'
                    (respond_run v m) run,
                left,
                quiet,
                given ∙ ap (λ t. v.delivered ++ map mime t) picked,
              )),
      )
