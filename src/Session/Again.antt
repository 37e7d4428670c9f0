-- ===== src/Session/Again.antt =====
-- wl2k.c and mid.c: a message that is offered again after its delivery.
use paclink_unix.Common.{
  ℕ, suc, ◌≡◌, ap, ap₂, ◌∙◌, ◌≢◌, true, false, List, [], ◌∷◌, ◌++◌, arith, ◌==◌, length,
}
use paclink_unix.Proposal.{Proposal}
use paclink_unix.Mid.Hash.{Database}
use paclink_unix.Mid.{found, is_expired, success, check_mid, record_mid}
use paclink_unix.Mid.Expiry.{check_mid-record_mid}
use paclink_unix.Session.{World, ok}
use paclink_unix.Session.Exchange.{deliver_sent}
use paclink_unix.Session.Inbound.{Services, delivered, deliver, respond_one}

longer : (s : List ℕ) → s ≢ 0 ∷ s
longer s e = let l : length s ≡ suc (length s) = ap length e in omega arith

module _ (D : Database) where
  recorded_found :
      (t now : ℕ) (mid : List ℕ) (db : D.Db)
      → (record_mid D t mid db).0 ≡ success
      → ((d : D.Db) → D.opens d ≡ true)
      → is_expired now t ≡ false
      → (check_mid D now mid (record_mid D t mid db).1).0 ≡ found
  recorded_found t now mid db h open_ok young =
      (check_mid-record_mid D t now mid (0 ∷ mid) db h open_ok (longer mid)).0 ∙ rw young

  respond_one_found :
      (S : Services) (q : Proposal) (w : World D)
      → q.code ≡ b'C'
      → (check_mid D S.now q.mid w.mids).0 ≡ found
      → respond_one D S q w
        ≡ ok
            (b'N', record q { accepted = false })
            (record w { mids = (check_mid D S.now q.mid w.mids).1 })
  unfolding respond_one
  respond_one_found S q w code known =
      let coded : (q.code == b'C') ≡ true = ground (arith, code) in rw (coded, known, respond_one)

  -- A message that sendmail has taken and whose id record_mid has recorded is refused with N when a
  -- proposal of code 'C' with that id is answered within the thirty days, as long as the database
  -- is as the delivery has left it. The database can be opened.
  pub respond_one-deliver :
      (S later : Services) (p q : Proposal) (m : List ℕ) (v : World D)
      → S.sendmail m ≡ delivered
      → (record_mid D S.now p.mid v.mids).0 ≡ success
      → ((d : D.Db) → D.opens d ≡ true)
      → is_expired later.now S.now ≡ false
      → q.code ≡ b'C'
      → q.mid ≡ p.mid
      → (v' : World D) × (deliver D S p m v ≡ ok tt v')
        × ((w : World D)
            → w.mids ≡ v'.mids
            → (w' : World D) × (respond_one D later q w
                ≡ ok (b'N', record q { accepted = false }) w'))
  respond_one-deliver S later p q m v sent recorded open_ok young code same =
      let db = (record_mid D S.now p.mid v.mids).1 in
      (
        record v { delivered = v.delivered ++ m ∷ []; mids = db },
        deliver_sent D S p m v sent,
        λ w e. (
          _,
          respond_one_found later q w code (
              ap₂ (λ i d. (check_mid D later.now i d).0) same e
              ∙ recorded_found S.now later.now p.mid v.mids recorded open_ok young),
        ),
      )
