-- ===== src/Session/Exchange/Messages.antt =====
-- wl2k.c: the messages of a round, transmitted and received.
use paclink_unix.Common.{
  ℕ, zero, suc, ◌≤◌, ◌≡◌, refl, sym, ap, subst, ◌∙◌, inl, inr, true, false, some, List, [], ◌∷◌,
  ◌++◌, map, append-nil, append_assoc, arith, Bool-cases, All, length, drop,
}
use paclink_unix.Proposal.{Proposal}
use paclink_unix.Transfer.{putcompressed, returned, getcompressed}
use paclink_unix.Transfer.RoundTrip.{getcompressed-putcompressed}
use paclink_unix.Mid.Hash.{Database}
use paclink_unix.Session.{World, ok}
use paclink_unix.Session.Agreement.{AllAgree}
use paclink_unix.Session.Outbound.{outgoing, transmit_one, transmit}
use paclink_unix.Session.Inbound.{Services, receive_one, receive_all}
use paclink_unix.Session.Exchange.{
  IsSendable, message_of, length-message_of, IsServing, messages, outgoing_whole, transmit_one_sent,
  transmit_one_done, behind_message, receive_one_got, transmit_nil, transmit_cons, receive_all_skip,
  receive_all_take, messages_kept,
}

module _ (D E : Database) (S : Services) (encoded : List ℕ → Type 0) (mime : List ℕ → List ℕ)
    (serving : IsServing S encoded mime) where
  send_one :
      (q : Proposal) (rest : List ℕ)
      → IsSendable encoded q
      → q.delete ≡ false
      → (out : List ℕ) × ((w : World D)
          → transmit_one q w
            ≡ ok (record q { delete = true }) (record w { output = w.output ++ out }))
        × ((p : Proposal) (v : World E)
            → v.input ≡ out ++ rest
            → receive_one E S p v ≡ ok tt (behind_message S p (mime (message_of q)) rest v))
  send_one q rest h kept =
      let (out, b, sent, got, valid, holds, start) =
        getcompressed-putcompressed S.memory serving.granted (outgoing q).title (message_of q)
          (drop q.csize (outgoing q).data_bytes) rest h.titled h.bytes
          (omega (arith, h.long, length-message_of q h))
          (omega (arith, h.fits, length-message_of q h)) in
      let (u, decoded, converted) =
        serving.converted b valid start (subst encoded (sym holds) h.packed) in
      let m = mime (message_of q) in
      let written : putcompressed (outgoing q) ≡ returned out =
        ap putcompressed (outgoing_whole q h) ∙ sent in
      let told : S.wl2mime u ≡ some m = converted ∙ ap (λ t. some (mime t)) holds in
      (
        out,
        λ w. transmit_one_sent D q w out kept written,
        λ p v e.
            receive_one_got E S p v rest m b u (ap (getcompressed S.memory) e ∙ got) decoded told
              (serving.sent m),
      )

  -- Where the two sides agree on what is accepted, the sender transmits all the messages and marks
  -- them, and whatever follows them on the connection, the receiver takes exactly these messages,
  -- in their order, gives each to sendmail, and leaves what follows; it writes nothing. The
  -- messages are sendable and of the kind `encoded`; the receiver's memory is granted, its decoder
  -- and converter take every valid buffer at its start that holds such a message, and sendmail
  -- takes what it is given.
  pub transmit-receive_all :
      (n : ℕ) (qs ps : List Proposal) (rest : List ℕ)
      → length qs ≤ n
      → AllAgree qs ps
      → All (IsSendable encoded) qs
      → (out : List ℕ) × ((w : World D)
          → (qs' : List Proposal) × (transmit n qs w
              ≡ ok qs' (record w { output = w.output ++ out }))
            × All (λ (q : Proposal). q.delete ≡ true) qs')
        × ((v : World E)
            → v.input ≡ out ++ rest
            → (v' : World E) × (receive_all E S ps v ≡ ok tt v')
              × (v'.input ≡ rest)
              × (v'.output ≡ v.output)
              × (v'.delivered ≡ v.delivered ++ map mime (messages qs)))
  transmit-receive_all n [] [] rest l agree h = (
    [],
    λ w. ([], transmit_nil D n w, tt),
    λ v e. (v, done v, e, refl, sym (append-nil v.delivered)),
  )
    where
      done : (v : World E) → receive_all E S [] v ≡ ok tt v
      done v = unfold receive_all in refl
  transmit-receive_all n [] (p ∷ ps) rest l agree h = elim agree [ ]
  transmit-receive_all n (q ∷ qs) [] rest l agree h = elim agree [ ]
  transmit-receive_all zero (q ∷ qs) (p ∷ ps) rest l agree h = elim l [ ]
  transmit-receive_all (suc n) (q ∷ qs) (p ∷ ps) rest l agree h =
      let (out, sends, receives) = transmit-receive_all n qs ps rest (omega arith) agree.1 h.1 in
      elim (Bool-cases q.delete) [
        | inl gone ↦
            let refused : p.accepted ≡ false = ground (arith, gone, agree.0.0) in
            (
              out,
              λ w.
                  (let (qs', run, marked) = sends w in
                    (
                      q ∷ qs',
                      transmit_cons D n q q qs qs' w w _ (transmit_one_done D q w gone) run,
                      (gone, marked),
                    )),
              λ v e.
                  (let (v', run, left, quiet, given) = receives v e in
                    (v', receive_all_skip E S p ps v refused ∙ run, left, quiet, simp gone given)),
            )
        | inr kept ↦
            let taken : p.accepted ≡ true = ground (arith, kept, agree.0.0) in
            let (first, sends_one, receives_one) = send_one q (out ++ rest) h.0 kept in
            (
              first ++ out,
              λ w.
                  (let (qs', run, marked) = sends (record w { output = w.output ++ first }) in
                    (
                      record q { delete = true } ∷ qs',
                      transmit_cons D n q _ qs qs' w _ _ (sends_one w) (
                          run
                          ∙ ap (λ o. ok qs' (record w { output = o }))
                              (append_assoc w.output first out)),
                      (refl, marked),
                    )),
              λ v e.
                  (let (v', run, left, quiet, given) =
                      receives (behind_message S p (mime (message_of q)) (out ++ rest) v) refl in
                    (
                      v',
                      receive_all_take E S p ps v _ taken
                            (receives_one p v (e ∙ append_assoc first out rest))
                          ∙ run,
                      left,
                      quiet,
                      given
                          ∙ append_assoc v.delivered (mime (message_of q) ∷ [])
                              (map mime (messages qs))
                          ∙ ap (λ l. v.delivered ++ map mime l) (sym (messages_kept q qs kept)),
                    )),
            )
      ]
