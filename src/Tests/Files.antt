-- ===== src/Tests/Files.antt =====
-- Runs of wl2k.c on an outbox of one message, a directory and a message for another station.
use paclink_unix.Common.{
  ℕ, ◌^◌, ◌<◌, ◌≡◌, refl, subst, ◌↔◌, true, false, some, List, [], ◌∷◌, arith, All, codes,
}
use paclink_unix.Buffer.{Buffer}
use paclink_unix.Buffer.Contents.{IsValid}
use paclink_unix.Conf.{text_lines, strcmp_zero}
use paclink_unix.Strutil.{strbegins, cut_at, strchr, strzapcc, isspace, strupper}
use paclink_unix.Number.{skip_spaces}
use paclink_unix.Proposal.{Proposal}
use paclink_unix.Session.Exchange.{IsSendable}
use paclink_unix.Session.Inbound.Offer.{IsLineOffer}
use paclink_unix.Outbox.{
  prepare_entries, prepare_entry, propose, read_through, Entry, collected, lines_of,
  prepare_outbound_proposals, p2p_qualify,
}
use paclink_unix.Outbox.Qualify.{LineFits, p2p_qualify_iff}
use paclink_unix.Tests.Hash.{full_memory}
use paclink_unix.Tests.Codec.{encoder, file, packed, encodes_file, zeros, zero_window}
use paclink_unix.Outbox.Proposals.{IsReadable, prepare_outbound_proposals-Outbox, Outbox}
use paclink_unix.Outbox.Sendable.{
  IsEncoder, IsEncoded, prepare_outbound_proposals-IsSendable, IsMessageFile,
}

abbrev entry : Entry
entry = record { d_name = codes "AB"; is_regular = true; readfile = some file; still_there = true }

abbrev directory : Entry
directory = record {
  d_name = codes "..";
  is_regular = false;
  readfile = some file;
  still_there = true;
}

abbrev remotecall : List ℕ
remotecall = codes "N1"

file-IsValid : IsValid file
file-IsValid = record {
  sized = refl;
  some_room = omega arith;
  within = omega arith;
  small = omega arith;
  position = omega arith;
}

some_injective : {b c : Buffer} → some b ≡ some c → b ≡ c
some_injective h = cc

abbrev proposals : List Proposal
proposals =
    record {
      code = b'C';
      kind = b'E';
      mid = codes "AB";
      usize = 28;
      csize = 37;
      path = some (codes "AB");
      ubuf = some (read_through file);
      cbuf = some packed;
      title = some (codes "Hi");
      offset = 0;
      accepted = false;
      delete = false;
    }
    ∷ []

prepared :
    prepare_outbound_proposals encoder true remotecall (some (directory ∷ entry ∷ []))
    ≡ collected proposals
unfolding prepare_outbound_proposals prepare_entries prepare_entry propose text_lines strbegins
    cut_at strchr skip_spaces strzapcc isspace strcmp_zero strupper
prepared =
    rw (encodes_file, prepare_outbound_proposals, prepare_entries, prepare_entry, propose) refl

prepared_one :
    prepare_outbound_proposals encoder true remotecall (some (entry ∷ [])) ≡ collected proposals
unfolding prepare_outbound_proposals prepare_entries prepare_entry propose text_lines strbegins
    cut_at strchr skip_spaces strzapcc isspace strcmp_zero strupper
prepared_one =
    rw (encodes_file, prepare_outbound_proposals, prepare_entries, prepare_entry, propose) refl

-- A message for N1 stays in the outbox when N2 calls.
other_station :
    prepare_outbound_proposals encoder true (codes "N2") (some (entry ∷ [])) ≡ collected []
unfolding prepare_outbound_proposals prepare_entries prepare_entry propose text_lines strbegins
    cut_at strchr skip_spaces strzapcc isspace strcmp_zero strupper
other_station = refl

qualifies : p2p_qualify remotecall (lines_of file) ≡ true
unfolding p2p_qualify text_lines strbegins cut_at strchr skip_spaces strzapcc isspace strcmp_zero
    strupper
qualifies = refl

p2p_qualify_iff_example :
    (p2p_qualify remotecall (lines_of file) ≡ true) ↔ All (LineFits remotecall) (lines_of file)
p2p_qualify_iff_example = p2p_qualify_iff remotecall (lines_of file)

entry-IsReadable : IsReadable encoder true remotecall entry
entry-IsReadable = record {
  read = (file, refl);
  small = λ u h. subst (λ (b : Buffer). b.dlen < 2 ^ 32) (some_injective h) (omega arith);
  still_there = refl;
  encodes = λ u h.
      subst (λ b. (c : Buffer) × (encoder b ≡ some c)) (some_injective h) (packed, encodes_file);
}

prepare_outbound_proposals-Outbox_example :
    (ps : List Proposal) × (prepare_outbound_proposals encoder true remotecall
        (some (directory ∷ entry ∷ []))
      ≡ collected ps)
    × Outbox encoder true remotecall (directory ∷ entry ∷ []) ps
prepare_outbound_proposals-Outbox_example =
    prepare_outbound_proposals-Outbox encoder true remotecall (directory ∷ entry ∷ [])
      ((λ short regular. cc), ((λ short regular. entry-IsReadable), tt))

encoder_of : IsEncoder encoder
encoder_of u c h = (full_memory, zero_window, zeros, 0, h)

entry-IsMessageFile : IsMessageFile entry
entry-IsMessageFile = record {
  plain = (ground arith, (ground arith, tt));
  unspaced = (ground arith, (ground arith, tt));
  valid = λ u h. subst IsValid (some_injective h) file-IsValid;
}

prepare_outbound_proposals-IsSendable_example :
    All IsLineOffer proposals × All (IsSendable IsEncoded) proposals
prepare_outbound_proposals-IsSendable_example =
    prepare_outbound_proposals-IsSendable encoder true remotecall encoder_of (entry ∷ []) proposals
      (entry-IsMessageFile, tt) prepared_one (omega arith, tt)
