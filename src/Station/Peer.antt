-- ===== src/Station/Peer.antt =====
-- wl2k.c: what wl2kd_exchange makes of the result of inbound_parser.
use paclink_unix.Common.{
  ℕ, zero, suc, ◌+◌, ◌≡◌, refl, Bool, true, false, ◌||◌, Option, none, some, List, [], ◌∷◌, ◌++◌,
  ◌==◌, if◌then◌else◌, length, drop,
}
use paclink_unix.Strutil.{strbegins}
use paclink_unix.Number.{strtoul}
use paclink_unix.Proposal.{Proposal, parse_proposal}
use paclink_unix.Transfer.{complement, sum}
use paclink_unix.Mid.Hash.{Database}
use paclink_unix.Session.{
  World, Run, ok, exited, stuck, Action, then_run, ◌>>=◌, ◌>>◌, return, fail, write, wl2kgetline,
}
use paclink_unix.Session.Outbound.{proplimit, dodelete, b2outboundproposal}
use paclink_unix.Session.Inbound.{
  Services, Batch, Round, again, result, empty_batch, answer_batch, on_offer, turn, on_end, on_line,
  behind, inbound_loop, inbound_parser,
}
use paclink_unix.Outbox.{Entry}
use paclink_unix.Station.{
  Config, Host, oprop_usize, p2p_startmsg, handshake_no_secure_login, expire, prepare,
  wl2kd_exchange,
}

-- Whatever a run returns, `P` holds of it.
abbrev Returns : {D : Database} {A : Type 0} → (A → Type 0) → Run D A → Type 0
Returns P (ok a w) = P a
Returns P (exited w) = Unit
Returns P stuck = Unit

Returns-then :
    {D : Database} {A B : Type 0} (P : B → Type 0) (r : Run D A) (f : A → Action D B)
    → ((a : A) (w : World D) → Returns P (f a w))
    → Returns P (then_run r f)
Returns-then P (ok a w) f h = h a w
Returns-then P (exited w) f h = tt
Returns-then P stuck f h = tt

then_run-Returns :
    {D : Database} {A B : Type 0} (P : A → Type 0) (Q : B → Type 0) (r : Run D A)
    (f : A → Action D B)
    → Returns P r
    → ((a : A) (w : World D) → P a → Returns Q (f a w))
    → Returns Q (then_run r f)
then_run-Returns P Q (ok a w) f e h = h a w e
then_run-Returns P Q (exited w) f e h = tt
then_run-Returns P Q stuck f e h = tt

then_run_ext :
    {D : Database} {A B : Type 0} (r : Run D A) (f g : A → Action D B)
    → ((a : A) (w : World D) → f a w ≡ g a w)
    → then_run r f ≡ then_run r g
then_run_ext (ok a w) f g h = h a w
then_run_ext (exited w) f g h = refl
then_run_ext stuck f g h = refl

-- A round that does not make the parser return 0
abbrev IsOpen : Round → Type 0
IsOpen (again b) = Unit
IsOpen (result v) = v ≡ false

if-IsOpen : (b : Bool) (r : Batch) → IsOpen (if b then again r else result false)
if-IsOpen true r = tt
if-IsOpen false r = refl

module _ (D : Database) (S : Services) where
  abbrev Opens : Action D Round → Type 0
  Opens m = (w : World D) → Returns IsOpen (m w)

  if-Opens : (b : Bool) (m k : Action D Round) → Opens m → Opens k → Opens (if b then m else k)
  if-Opens true m k h l = h
  if-Opens false m k h l = l

  bind-Opens :
      {A : Type 0} (m : Action D A) (f : A → Action D Round)
      → ((a : A) → Opens (f a))
      → Opens (m >>= f)
  bind-Opens m f h w = Returns-then IsOpen (m w) f h

  turn-Opens : (line : List ℕ) (b : Batch) → Opens (turn D S line b)
  unfolding turn
  turn-Opens line b = bind-Opens (b2outboundproposal line) _ (λ going w. if-IsOpen going b)

  on_offer-Opens : (line : List ℕ) (b : Batch) → Opens (on_offer D S line b)
  unfolding on_offer
  on_offer-Opens line b = bind-Opens dodelete _ (λ _.
      if-Opens (length b.proposals == proplimit) _ _ (λ w. tt) (by_line (parse_proposal line)))
    where
      by_line :
          (o : Option Proposal)
          → Opens (elim o as (λ _. Action D Round) [
            | none ↦ fail
            | some p ↦ return (
                again
                  (record { proposals = b.proposals ++ p ∷ []; cksum = b.cksum + sum line + 13 }))
          ])
      by_line none = λ w. tt
      by_line (some p) = λ w. tt

  on_end-Opens : (line : List ℕ) (b : Batch) → Opens (on_end D S line b)
  unfolding on_end
  on_end-Opens line b =
      if-Opens S.gsendmsgonly _ _ (bind-Opens (write (b'F' ∷ b'F' ∷ 13 ∷ [])) _ (λ _ w. tt)) (
        if-Opens ((strtoul 16 (drop 2 line)).0 == complement b.cksum) _ _
          (bind-Opens (answer_batch D S b.proposals) _ (λ _. turn-Opens line empty_batch))
          (λ w. tt))

  on_line-Opens : (line : List ℕ) (b : Batch) → Opens (on_line D S line b)
  unfolding on_line
  on_line-Opens line b =
      if-Opens (strbegins line (b';' ∷ []) || length line == 0) _ _ (λ w. tt)
        (if-Opens (strbegins line (b'F' ∷ b'C' ∷ [])) _ _ (on_offer-Opens line b) (
          if-Opens (strbegins line (b'F' ∷ b'F' ∷ [])) _ _
            (bind-Opens dodelete _ (λ _. turn-Opens line b))
            (if-Opens (strbegins line (b'B' ∷ [])) _ _ (λ w. refl)
              (if-Opens (strbegins line (b'F' ∷ b'Q' ∷ [])) _ _
                (bind-Opens dodelete _ (λ _ w. refl))
                (if-Opens (strbegins line (b'F' ∷ b'>' ∷ [])) _ _ (on_end-Opens line b) (
                  if-Opens (S.stray_byte line == b'>') _ _
                    (bind-Opens dodelete _ (λ _. turn-Opens line b)) (λ w. tt)))))))

  abbrev IsFalse : Bool → Type 0
  IsFalse v = v ≡ false

  behind-Returns :
      (loop : Batch → Action D Bool) (r : Round) (u : World D)
      → IsOpen r
      → ((b : Batch) → Returns IsFalse (loop b u))
      → Returns IsFalse (behind D S loop r u)
  unfolding behind
  behind-Returns loop (again b) u e h = h b
  behind-Returns loop (result v) u e h = e

  inbound_loop-Returns :
      (fuel : ℕ) (b : Batch) (w : World D) → Returns IsFalse (inbound_loop D S fuel b w)
  unfolding inbound_loop
  inbound_loop-Returns zero b w = tt
  inbound_loop-Returns (suc fuel) b w =
      Returns-then IsFalse (wl2kgetline w) _ (on_read (inbound_loop-Returns fuel))
    where
      on_read :
          ((b' : Batch) (u : World D) → Returns IsFalse (inbound_loop D S fuel b' u))
          → (o : Option (List ℕ)) (v : World D)
          → Returns IsFalse (
              (elim o as (λ _. Action D Bool) [
                | none ↦ fail
                | some s ↦ on_line D S s b >>= behind D S (inbound_loop D S fuel)
              ])
                v)
      on_read ih none v = tt
      on_read ih (some s) v =
          then_run-Returns IsOpen IsFalse (on_line D S s b v) _ (on_line-Opens s b v)
            (λ r u e. behind-Returns (inbound_loop D S fuel) r u e (λ b'. ih b' u))

  only_false :
      {B : Type 0} (r : Run D Bool) (f g : Action D B)
      → Returns IsFalse r
      → then_run r (λ v. if v then f else g) ≡ then_run r (λ v. g)
  only_false (ok true w) f g e = cc
  only_false (ok false w) f g e = refl
  only_false (exited w) f g e = refl
  only_false stuck f g e = refl

  module _ (H : Host) (cfg : Config) where
    -- The offer that wl2kd_exchange makes when inbound_parser returns 0 is never made, since
    -- inbound_parser returns nothing but -1: the function is what comes before, inbound_parser, and
    -- no more.
    pub wl2kd_exchange_lem :
        (outbox : Option (List Entry)) (w : World D)
        → wl2kd_exchange H cfg D S outbox w
          ≡ (do
            expire H cfg D S
            ps ← prepare H cfg D S true outbox
            write (p2p_startmsg H cfg (length ps) (oprop_usize ps))
            line ← handshake_no_secure_login H cfg D (length ps)
            going ← inbound_parser D S
            return tt)
              w
    unfolding wl2kd_exchange inbound_parser
    wl2kd_exchange_lem outbox w = then_run_ext (expire H cfg D S w) _ _ (λ _ w₁.
        then_run_ext (prepare H cfg D S true outbox w₁) _ _ (λ ps w₂.
          then_run_ext (write (p2p_startmsg H cfg (length ps) (oprop_usize ps)) w₂) _ _ (λ _ w₃.
            then_run_ext (handshake_no_secure_login H cfg D (length ps) w₃) _ _ (λ line w₄.
              only_false (inbound_parser D S w₄) _ (return tt)
                (inbound_loop-Returns (suc (length w₄.input)) empty_batch w₄)))))
