-- ===== src/Session/Outbound/Ends.antt =====
-- wl2k.c: the ends of b2outboundproposal.
use paclink_unix.Common.{
  ℕ, zero, suc, true, false, Option, none, some, List, [], ◌∷◌, ◌++◌, arith, length, drop,
}
use paclink_unix.Strutil.{strbegins}
use paclink_unix.Number.{skip_spaces}
use paclink_unix.Proposal.{Proposal}
use paclink_unix.Transfer.{putcompressed, Sent, returned}
use paclink_unix.Mid.Hash.{Database}
use paclink_unix.Session.{Run, ok, exited, Action, ◌>>=◌}
use paclink_unix.Session.Outbound.{
  proplimit, answers, outgoing, transmit_one, transmit, handle_answers, is_empty, offer_all,
  b2outboundproposal,
}
use paclink_unix.Session.Ends.{
  Stops, Stops-le, Stops-then, Stops-if, IsStopping, bind-IsStopping, if-IsStopping,
  return-IsStopping, fail-IsStopping, write-IsStopping, next_line_shorter, skip_lines-Stops,
}

module _ (D : Database) where
  transmit_one-IsStopping : (p : Proposal) → IsStopping {D = D} (transmit_one p)
  unfolding transmit_one
  transmit_one-IsStopping p w =
      Stops-if (length w.input) p.delete _ _ (omega arith) (sent (putcompressed (outgoing p)))
    where
      sent :
          (s : Sent)
          → Stops (length w.input) (elim s as (λ _. Run D Proposal) [
            | returned out ↦ ok (record p { delete = true }) (record w { output = w.output ++ out })
            | Sent.exited out ↦ exited (record w { output = w.output ++ out })
          ])
      sent (returned out) = omega arith
      sent (Sent.exited out) = tt

  transmit-IsStopping : (n : ℕ) (ps : List Proposal) → IsStopping {D = D} (transmit n ps)
  unfolding transmit
  transmit-IsStopping zero ps = return-IsStopping D {A = List Proposal} []
  transmit-IsStopping (suc n) [] = return-IsStopping D {A = List Proposal} []
  transmit-IsStopping (suc n) (p ∷ ps) =
      bind-IsStopping _ _ (transmit_one-IsStopping p) (λ p'.
        bind-IsStopping _ _ (transmit-IsStopping n ps) (λ ps'. return-IsStopping D (p' ∷ ps')))

  handle_answers-IsStopping :
      (line : List ℕ) (ps : List Proposal) → IsStopping {D = D} (handle_answers line ps)
  unfolding handle_answers
  handle_answers-IsStopping line ps w = on_answers (answers 0 (skip_spaces (drop 3 line)) ps)
    where
      handle : List Proposal → Action D (Unit {0})
      handle ps' = do
        handled ← transmit proplimit ps'
        λ w'. ok tt (record w' { before = w'.before ++ handled; next = drop proplimit ps' })

      on_answers :
          (o : Option (List Proposal))
          → Stops
              (length w.input)
              (elim o as (λ _. Run D (Unit {0})) [ none ↦ exited w | some ps' ↦ handle ps' w ])
      on_answers none = tt
      on_answers (some ps') =
          bind-IsStopping _ _ (transmit-IsStopping proplimit ps') (λ handled v. omega arith) w

  offer_all-IsStopping : (ps : List Proposal) → IsStopping {D = D} (offer_all ps)
  unfolding offer_all
  offer_all-IsStopping ps = bind-IsStopping _ _ (write-IsStopping D _) (λ _ w.
      next_line_shorter D _ w (λ line₀ v₀ l₀.
        Stops-then (length w.input) _ _
          (Stops-le (length v₀.input) (length w.input) _ (omega arith)
            (skip_lines-Stops D (suc (length w.input)) _ line₀ v₀ (omega arith)))
          (λ line₁ v₁ l₁.
            Stops-then (length w.input) _ _
              (Stops-le (length v₁.input) (length w.input) _ l₁
                (skip_lines-Stops D (suc (length w.input)) _ line₁ v₁ (omega arith)))
              (λ line v l. Stops-le (length v.input) (length w.input) _ l (
                if-IsStopping (strbegins line (b'F' ∷ b'S' ∷ b' ' ∷ [])) _ _
                  (handle_answers-IsStopping line ps) (fail-IsStopping D (Unit {0})) v)))))

  pub outbound-IsStopping : (last : List ℕ) → IsStopping {D = D} (b2outboundproposal last)
  unfolding b2outboundproposal
  outbound-IsStopping last w =
      Stops-if (length w.input) (is_empty w.next) _ _
        (Stops-if (length w.input) (strbegins last (b'F' ∷ b'F' ∷ [])) _ _
          (bind-IsStopping _ _ (write-IsStopping D _) (λ _. return-IsStopping D false) w)
          (bind-IsStopping _ _ (write-IsStopping D _) (λ _. return-IsStopping D true) w))
        (bind-IsStopping _ _ (offer_all-IsStopping w.next) (λ _. return-IsStopping D true) w)
