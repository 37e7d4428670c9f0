-- ===== src/Session/Agreement.antt =====
-- wl2k.c: the "FS" line, on the side of the receiver and on that of the sender.
use paclink_unix.Common.{
  ℕ, suc, ◌≡◌, refl, ap, ◌∙◌, ◌≢◌, ◌⊎◌, inl, inr, true, false, not, Option, none, some, List, [],
  ◌∷◌, arith, ◌==◌, Bool-cases, All, length,
}
use paclink_unix.Proposal.{Proposal}
use paclink_unix.Mid.Hash.{Database, corrupt, stamp, Entry, same}
use paclink_unix.Mid.{Check, found, not_found, failed, halted, check_mid}
use paclink_unix.Session.{Run, World, ok}
use paclink_unix.Session.Outbound.{answers, answer_of}
use paclink_unix.Session.Outbound.Answers.{answered, answered_all, IsSimple, answers_simple}
use paclink_unix.Session.Inbound.{Services, respond_one, respond}

-- The sender sends what the receiver accepts and drops what it refuses.
abbrev pub Agrees : Proposal → Proposal → Type 0
Agrees sent p = (sent.delete ≡ not p.accepted) × (sent.accepted ≡ p.accepted)

abbrev pub AllAgree : List Proposal → List Proposal → Type 0
AllAgree [] [] = Unit
AllAgree [] (p ∷ ps) = ⊥
AllAgree (q ∷ qs) [] = ⊥
AllAgree (q ∷ qs) (p ∷ ps) = Agrees q p × AllAgree qs ps

-- The receiver's character for a proposal, and its flag.
abbrev pub IsVerdict : ℕ → Proposal → Type 0
IsVerdict c p = (c ≡ b'Y') × (p.accepted ≡ true) ⊎ (c ≡ b'N') × (p.accepted ≡ false)

abbrev pub AreVerdicts : List ℕ → List Proposal → Type 0
AreVerdicts [] [] = Unit
AreVerdicts [] (p ∷ ps) = ⊥
AreVerdicts (c ∷ cs) [] = ⊥
AreVerdicts (c ∷ cs) (p ∷ ps) = IsVerdict c p × AreVerdicts cs ps

IsVerdict-IsSimple : (c : ℕ) (p : Proposal) → IsVerdict c p → IsSimple c
unfolding answer_of
IsVerdict-IsSimple c p (inl h) = inl (rw h.0)
IsVerdict-IsSimple c p (inr h) = inr (inl (rw h.0))

IsVerdict-Agrees : (c : ℕ) (p q : Proposal) → IsVerdict c p → Agrees (answered (answer_of c) q) p
unfolding answer_of
IsVerdict-Agrees c p q (inl h) = rw (h.0, h.1) (refl, refl)
IsVerdict-Agrees c p q (inr h) = rw (h.0, h.1) (refl, refl)

pub AreVerdicts-IsSimple : (cs : List ℕ) (ps : List Proposal) → AreVerdicts cs ps → All IsSimple cs
AreVerdicts-IsSimple [] ps h = tt
AreVerdicts-IsSimple (c ∷ cs) [] h = elim h [ ]
AreVerdicts-IsSimple (c ∷ cs) (p ∷ ps) h =
    (IsVerdict-IsSimple c p h.0, AreVerdicts-IsSimple cs ps h.1)

pub AreVerdicts-AllAgree :
    (cs : List ℕ) (ps qs : List Proposal)
    → AreVerdicts cs ps
    → length cs ≡ length qs
    → AllAgree (answered_all cs qs) ps
AreVerdicts-AllAgree [] [] [] h l = tt
AreVerdicts-AllAgree [] [] (q ∷ qs) h l = absurd (omega arith)
AreVerdicts-AllAgree [] (p ∷ ps) qs h l = elim h [ ]
AreVerdicts-AllAgree (c ∷ cs) [] qs h l = elim h [ ]
AreVerdicts-AllAgree (c ∷ cs) (p ∷ ps) [] h l = absurd (omega arith)
AreVerdicts-AllAgree (c ∷ cs) (p ∷ ps) (q ∷ qs) h l =
    (IsVerdict-Agrees c p q h.0, AreVerdicts-AllAgree cs ps qs h.1 (omega arith))

-- No entry of the database has the wrong size.
abbrev pub IsWhole : (D : Database) → D.Db → Type 0
IsWhole D db = (k : List ℕ) → D.get db k ≢ some corrupt

module _ (D : Database) (now : ℕ) where
  open D use {Db, get, del, get-del}

  del-IsWhole : (db : Db) (mid : List ℕ) → IsWhole D db → IsWhole D (del db mid)
  del-IsWhole db mid h k = elim (Bool-cases (same mid k)) [
    | inl e ↦ λ bad. ground (arith, get-del db mid k)
    | inr e ↦ λ bad. h k (ground (arith, get-del db mid k))
  ]

  check_mid-IsWhole :
      (mid : List ℕ) (db : Db) (o : Option Entry)
      → get db mid ≡ o
      → IsWhole D db
      → ((check_mid D now mid db).0 ≢ halted) × IsWhole D (check_mid D now mid db).1
  unfolding check_mid
  check_mid-IsWhole mid db none e h = ground (arith, h)
  check_mid-IsWhole mid db (some corrupt) e h = absurd (h mid e)
  check_mid-IsWhole mid db (some (stamp t)) e h = ground (arith, h, del-IsWhole db mid h)

module _ (D : Database) (S : Services) where
  -- The answer to a proposal of code 'C', which depends on the database alone.
  respond_one_answers :
      (p : Proposal) (db : D.Db)
      → p.code ≡ b'C'
      → IsWhole D db
      → (c : ℕ) × (p' : Proposal) × (db' : D.Db) × ((w : World D)
          → w.mids ≡ db
          → respond_one D S p w ≡ ok (c, p') (record w { mids = db' }))
        × IsWhole D db'
        × IsVerdict c p'
  unfolding respond_one
  respond_one_answers p db code h = by_check (check_mid D S.now p.mid db).0 refl
    where
      checked : ((check_mid D S.now p.mid db).0 ≢ halted) × IsWhole D (check_mid D S.now p.mid db).1
      checked = check_mid-IsWhole D S.now p.mid db (D.get db p.mid) refl h

      coded : (p.code == b'C') ≡ true
      coded = ground (arith, code)

      after : D.Db → D.Db
      after d = (check_mid D S.now p.mid d).1

      no : Proposal
      no = record p { accepted = false }

      moved :
          (r : Check) (w : World D)
          → w.mids ≡ db
          → (check_mid D S.now p.mid db).0 ≡ r
          → (check_mid D S.now p.mid w.mids).0 ≡ r
      moved r w m e = ap (λ d. (check_mid D S.now p.mid d).0) m ∙ e

      settled :
          (w : World D) (a : ℕ × Proposal)
          → w.mids ≡ db
          → ◌≡◌ {A = Run D (ℕ × Proposal)}
              (ok a (record w { mids = after w.mids }))
              (ok a (record w { mids = after db }))
      settled w a m = ap (λ d. ok a (record w { mids = after d })) m

      by_check :
          (r : Check)
          → (check_mid D S.now p.mid db).0 ≡ r
          → (c : ℕ) × (p' : Proposal) × (db' : D.Db) × ((w : World D)
              → w.mids ≡ db
              → respond_one D S p w ≡ ok (c, p') (record w { mids = db' }))
            × IsWhole D db'
            × IsVerdict c p'
      by_check found e = (
        b'N',
        no,
        after db,
        λ w m. rw (coded, moved found w m e, respond_one) (settled w (b'N', no) m),
        checked.1,
        inr (refl, refl),
      )
      by_check not_found e =
          let yes = record p { accepted = true } in
          (
            b'Y',
            yes,
            after db,
            λ w m. rw (coded, moved not_found w m e, respond_one) (settled w (b'Y', yes) m),
            checked.1,
            inl (refl, refl),
          )
      by_check failed e = (
        b'N',
        no,
        after db,
        λ w m. rw (coded, moved failed w m e, respond_one) (settled w (b'N', no) m),
        checked.1,
        inr (refl, refl),
      )
      by_check halted e = absurd (checked.0 e)

  -- The same for all the proposals of an offer.
  pub respond_answers :
      (ps : List Proposal) (db : D.Db)
      → All (λ (p : Proposal). p.code ≡ b'C') ps
      → IsWhole D db
      → (cs : List ℕ) × (ps' : List Proposal) × (db' : D.Db) × ((w : World D)
          → w.mids ≡ db
          → respond D S ps w ≡ ok (cs, ps') (record w { mids = db' }))
        × AreVerdicts cs ps'
        × (length cs ≡ length ps)
  unfolding respond
  respond_answers [] db h k =
      ([], [], db, λ w m. ap (λ d. ok ([], []) (record w { mids = d })) m, tt, refl)
  respond_answers (p ∷ ps) db h k =
      let (c, p', db₁, one, whole, verdict) = respond_one_answers p db h.0 k in
      let (cs, ps', db₂, more, verdicts, len) = respond_answers ps db₁ h.1 whole in
      (
        c ∷ cs,
        p' ∷ ps',
        db₂,
        λ w m. rw (one w m, respond) (rw (more (record w { mids = db₁ }) refl)),
        (verdict, verdicts),
        ap suc len,
      )

  -- For offered proposals of code 'C', with no entry of a wrong size in the database, the receiver
  -- answers each with a character, and the sender that reads these characters for the proposals of
  -- its own list, which are as many, is to send exactly those that the receiver has accepted and
  -- marks as done exactly those that it has refused.
  pub answers-respond :
      (ps qs : List Proposal) (w : World D)
      → All (λ (p : Proposal). p.code ≡ b'C') ps
      → IsWhole D w.mids
      → length qs ≡ length ps
      → (cs : List ℕ) × (ps' qs' : List Proposal) × (db : D.Db) × (respond D S ps w
          ≡ ok (cs, ps') (record w { mids = db }))
        × (answers 0 cs qs ≡ some qs')
        × AllAgree qs' ps'
  answers-respond ps qs w h k l =
      let (cs, ps', db, run, verdicts, len) = respond_answers ps w.mids h k in
      (
        cs,
        ps',
        answered_all cs qs,
        db,
        run w refl,
        answers_simple cs qs (AreVerdicts-IsSimple cs ps' verdicts),
        AreVerdicts-AllAgree cs ps' qs verdicts (omega arith),
      )
