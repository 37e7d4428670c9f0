-- ===== src/Session/Exchange.antt =====
-- wl2k.c: one message on its way, from the sender's list to the receiver's sendmail.
pub mod Messages
use paclink_unix.Common.{
  ℕ, zero, suc, ◌^◌, ◌≤◌, ◌<◌, ◌≡◌, sym, ap, ap₂, ◌∙◌, true, false, some, List, [], ◌∷◌, ◌++◌,
  append-nil, if◌then◌else◌, All, length, take, drop, length-take, take-append-drop,
}
use paclink_unix.Buffer.{Buffer}
use paclink_unix.Buffer.Contents.{IsValid, contents}
use paclink_unix.Proposal.{Proposal}
use paclink_unix.Stream.{Read}
use paclink_unix.Transfer.{putcompressed, returned, getcompressed}
use paclink_unix.Transfer.RoundTrip.{getcompressed-putcompressed}
use paclink_unix.Mid.{record_mid}
use paclink_unix.Mid.Hash.{Database}
use paclink_unix.Session.{World, ok, receive}
use paclink_unix.Session.Agreement.{AllAgree}
use paclink_unix.Session.Outbound.{outgoing, transmit_one, transmit}
use paclink_unix.Session.Inbound.{Services, delivered, deliver, receive_one, receive_all}

-- The message of a proposal: the first `csize` bytes of its block.
abbrev pub message_of : Proposal → List ℕ
message_of p = take p.csize (outgoing p).data_bytes

-- A message that prepare_outbound_proposals makes, from its start: a title with no NUL, and at least
-- six bytes, which its block has, and which are in the compressed format `encoded`.
pub record IsSendable (encoded : List ℕ → Type 0) (p : Proposal) : Type 0 where
  pub titled : All (λ c. 0 < c) (outgoing p).title
  pub from_start : p.offset ≡ 0
  pub counted : p.csize ≤ length (outgoing p).data_bytes
  pub bytes : All (λ c. c < 256) (message_of p)
  pub long : 6 ≤ p.csize
  pub fits : p.csize < 2 ^ 32
  pub packed : encoded (message_of p)

-- What the receiver's surroundings do for it: memory is granted, the decoder and the converter take a
-- buffer at its start whose bytes `s` are `encoded` to `mime s`, and sendmail delivers.
pub record IsServing (S : Services) (encoded : List ℕ → Type 0) (mime : List ℕ → List ℕ)
    : Type 0 where
  pub granted : (n : ℕ) → S.memory.grants n ≡ true
  pub converted :
      (b : Buffer)
      → IsValid b
      → b.i ≡ 0
      → encoded (contents b)
      → (u : Buffer) × (S.version_1_decode b ≡ some u) × (S.wl2mime u ≡ some (mime (contents b)))
  pub sent : (m : List ℕ) → S.sendmail m ≡ delivered

-- The messages that are still to be sent.
abbrev pub messages : List Proposal → List (List ℕ)
messages [] = []
messages (p ∷ ps) = if p.delete then messages ps else message_of p ∷ messages ps

pub length-message_of :
    {encoded : List ℕ → Type 0} (q : Proposal)
    → IsSendable encoded q
    → length (message_of q) ≡ q.csize
length-message_of q h = length-take q.csize (outgoing q).data_bytes h.counted

pub outgoing_whole :
    {encoded : List ℕ → Type 0} (q : Proposal)
    → IsSendable encoded q
    → outgoing q ≡ record {
      title = (outgoing q).title;
      offset = 0;
      csize = length (message_of q);
      data_bytes = message_of q ++ drop q.csize (outgoing q).data_bytes;
    }
unfolding outgoing
outgoing_whole q h =
    let title = (outgoing q).title in
    let block = (outgoing q).data_bytes in
    ap (λ (o : ℕ). record { title = title; offset = o; csize = q.csize; data_bytes = block })
      h.from_start
    ∙ ap₂ (λ (n : ℕ) (s : List ℕ). record { title = title; offset = 0; csize = n; data_bytes = s })
        (sym (length-message_of q h)) (sym (take-append-drop q.csize block))

pub transmit_one_sent :
    (D : Database) (q : Proposal) (w : World D) (out : List ℕ)
    → q.delete ≡ false
    → putcompressed (outgoing q) ≡ returned out
    → transmit_one q w ≡ ok (record q { delete = true }) (record w { output = w.output ++ out })
unfolding transmit_one
transmit_one_sent D q w out kept sent = simp (sent, kept)

pub transmit_one_done :
    (D : Database) (q : Proposal) (w : World D) → q.delete ≡ true → transmit_one q w ≡ ok q w
unfolding transmit_one
transmit_one_done D q w gone = simp gone

pub receive_got :
    (E : Database) (S : Services) (v : World E) (rest : List ℕ) (b : Buffer)
    → getcompressed S.memory v.input ≡ Read.ok b rest
    → receive (getcompressed S.memory) v ≡ ok b (record v { input = rest })
unfolding receive
receive_got E S v rest b got = rw (got, receive)

pub deliver_sent :
    (E : Database) (S : Services) (p : Proposal) (m : List ℕ) (v : World E)
    → S.sendmail m ≡ delivered
    → deliver E S p m v
      ≡ ok tt (record v {
        delivered = v.delivered ++ m ∷ [];
        mids = (record_mid E S.now p.mid v.mids).1;
      })
unfolding deliver
deliver_sent E S p m v sent = rw (sent, deliver)

-- The receiver's world behind one message.
abbrev pub behind_message :
    {E : Database} → Services → Proposal → List ℕ → List ℕ → World E → World E
behind_message {E} S p m rest v = record v {
  input = rest;
  delivered = v.delivered ++ m ∷ [];
  mids = (record_mid E S.now p.mid v.mids).1;
}

pub receive_one_got :
    (E : Database) (S : Services) (p : Proposal) (v : World E) (rest m : List ℕ) (b u : Buffer)
    → getcompressed S.memory v.input ≡ Read.ok b rest
    → S.version_1_decode b ≡ some u
    → S.wl2mime u ≡ some m
    → S.sendmail m ≡ delivered
    → receive_one E S p v ≡ ok tt (behind_message S p m rest v)
unfolding receive_one
receive_one_got E S p v rest m b u got decoded converted sent =
    rw (receive_got E S v rest b got)
      (rw decoded (rw converted (deliver_sent E S p m (record v { input = rest }) sent)))

pub transmit_nil :
    (D : Database) (n : ℕ) (w : World D)
    → transmit n [] w ≡ ok [] (record w { output = w.output ++ [] })
unfolding transmit
transmit_nil D zero w = rw append-nil
transmit_nil D (suc n) w = rw append-nil

pub transmit_cons :
    (D : Database) (n : ℕ) (q q' : Proposal) (qs qs' : List Proposal) (w v u : World D)
    → transmit_one q w ≡ ok q' v
    → transmit n qs v ≡ ok qs' u
    → transmit (suc n) (q ∷ qs) w ≡ ok (q' ∷ qs') u
unfolding transmit
transmit_cons D n q q' qs qs' w v u one more = rw (one, transmit) (rw more)

pub receive_all_skip :
    (E : Database) (S : Services) (p : Proposal) (ps : List Proposal) (v : World E)
    → p.accepted ≡ false
    → receive_all E S (p ∷ ps) v ≡ receive_all E S ps v
unfolding receive_all
receive_all_skip E S p ps v h = simp h

pub receive_all_take :
    (E : Database) (S : Services) (p : Proposal) (ps : List Proposal) (v v₁ : World E)
    → p.accepted ≡ true
    → receive_one E S p v ≡ ok tt v₁
    → receive_all E S (p ∷ ps) v ≡ receive_all E S ps v₁
unfolding receive_all
receive_all_take E S p ps v v₁ h one = simp (h, one)

pub messages_kept :
    (q : Proposal) (qs : List Proposal)
    → q.delete ≡ false
    → messages (q ∷ qs) ≡ message_of q ∷ messages qs
messages_kept q qs kept = simp kept
