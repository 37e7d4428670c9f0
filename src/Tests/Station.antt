-- ===== src/Tests/Station.antt =====
-- A small message, its proposal, and a station that receives it.
use paclink_unix.Common.{ℕ, ◌≡◌, refl, inl, inr, true, false, some, List, [], ◌∷◌, ◌++◌, arith, All}
use paclink_unix.Buffer.Contents.{contents}
use paclink_unix.Proposal.{Proposal, static_prop}
use paclink_unix.Proposal.RoundTrip.{IsOffer}
use paclink_unix.Number.{decimal, digits, digit_char}
use paclink_unix.Transfer.{putcompressed, put_header, put_chunks, returned}
use paclink_unix.Session.{World}
use paclink_unix.Session.Outbound.{proplimit, answer_of, offer, offer_end, outgoing, later}
use paclink_unix.Session.Outbound.Answers.{answered, IsSimple}
use paclink_unix.Session.Agreement.{IsWhole}
use paclink_unix.Session.Inbound.{Services, delivered}
use paclink_unix.Session.Inbound.Offer.{IsLineOffer}
use paclink_unix.Session.Exchange.{IsSendable, IsServing}
use paclink_unix.Mid.{record_mid, success}
use paclink_unix.Tests.Codec.{text, decoder, message, message_buffer, decoder_lem}
use paclink_unix.Tests.Hash.{full_memory, log_hash, look}

-- "FC EM AB 1 8 0"
abbrev pub proposal : Proposal
proposal = record static_prop {
  code = b'C';
  kind = b'E';
  mid = b'A' ∷ b'B' ∷ [];
  usize = 1;
  csize = 8;
}

pub proposal-IsOffer : IsOffer proposal
proposal-IsOffer = record {
  coded = refl;
  typed = inr refl;
  short = omega arith;
  plain = (ground arith, (ground arith, tt));
  usize_fits = omega arith;
  csize_fits = omega arith;
}

pub proposal-IsLineOffer : IsLineOffer proposal
proposal-IsLineOffer = record {
  offer = proposal-IsOffer;
  plain = (ground arith, (ground arith, tt));
}

-- The same proposal on the sender's side, with its message
abbrev pub letter : Proposal
letter = record proposal { title = some (b'T' ∷ []); cbuf = some (message_buffer); accepted = true }

-- The bytes of the message that the encoder makes
abbrev pub IsMessage : List ℕ → Type 0
IsMessage s = s ≡ message

-- Its text
abbrev pub text_of_message : List ℕ → List ℕ
text_of_message s = contents text

pub letter-IsSendable : IsSendable IsMessage letter
unfolding outgoing
letter-IsSendable = record {
  titled = (omega arith, tt);
  from_start = refl;
  counted = omega arith;
  packed = refl;
  bytes = (
    omega arith,
    (
      omega arith,
      (omega arith, (omega arith, (omega arith, (omega arith, (omega arith, (omega arith, tt)))))),
    ),
  );
  long = omega arith;
  fits = omega arith;
}

-- A station with the decoder of lzhuf_1.c, whose converter leaves the text as it is, and whose
-- sendmail delivers it
abbrev pub services : Services
services = record {
  memory = full_memory;
  now = 100;
  version_1_decode = decoder;
  wl2mime = λ b. some (contents b);
  sendmail = λ s. delivered;
  stray_byte = λ s. 0;
  gsendmsgonly = false;
}

abbrev pub offered_lines : List ℕ
offered_lines =
    (offer proplimit (proposal ∷ []) 0).0 ++ (offer_end (offer proplimit (proposal ∷ []) 0).1 ++ [])

abbrev pub station : World log_hash
station = record {
  input = offered_lines;
  output = [];
  before = [];
  next = [];
  unlinked = [];
  delivered = [];
  mids = [];
}

pub whole : IsWhole log_hash []
unfolding look
whole k e = cc

pub yes_and_no : All IsSimple (b'Y' ∷ b'-' ∷ [])
unfolding answer_of
yes_and_no = (inl refl, (inr (inl refl), tt))

pub services-IsServing : IsServing services IsMessage text_of_message
services-IsServing = record {
  granted = λ n. refl;
  converted = λ b v i k. (text, decoder_lem b v i k, refl);
  sent = λ m. refl;
}

-- SOH 4 "T" NUL "0" NUL STX 8, the message, EOT and the checksum
abbrev pub letter_bytes : List ℕ
letter_bytes = 1 ∷ 4 ∷ b'T' ∷ 0 ∷ b'0' ∷ 0 ∷ 2 ∷ 8 ∷ (message ++ 4 ∷ 239 ∷ [])

pub letter_sent : putcompressed (outgoing (answered later letter)) ≡ returned letter_bytes
unfolding putcompressed outgoing put_header put_chunks decimal digits digit_char
letter_sent = refl

pub recorded_now : (record_mid log_hash 100 proposal.mid []).0 ≡ success
unfolding record_mid
recorded_now = refl
