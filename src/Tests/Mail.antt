-- ===== src/Tests/Mail.antt =====
-- Runs of conf.c, mime2wl.c and wl2mime.c.
use paclink_unix.Common.{
  ℕ, ◌≡◌, refl, true, Option, none, some, List, [], ◌∷◌, ◌++◌, map, arith, drop, codes,
}
use paclink_unix.Strutil.{
  isspace, strchr, strcasebegins, strncasecmp_zero, cut_at, tolower, isupper,
}
use paclink_unix.Number.{skip_spaces, decimal}
use paclink_unix.Conf.{conf_read, conf_get}
use paclink_unix.Conf.RoundTrip.{
  Item, comment, plain, quoted, unquoted, file_of, settings_of, conf_get-conf_read,
}
use paclink_unix.Mime.{
  Bytes, text_plain, other_type, Part, part, multipart, nil, cons, Message, Call, add_body,
}
use paclink_unix.Mime.Address.{address_cleanup, in_brackets, mbo_header}
use paclink_unix.Mime.Address.Laws.{mbo_of, mbo_header_lem}
use paclink_unix.Mime.ToWinlink.{buffer, System, mime2wl, add_attachment, add_body_part}
use paclink_unix.Mime.ToMime.{wl2mime, read_chars}
use paclink_unix.Mime.Parts.{attached, file_call}
use paclink_unix.Mime.Headers.{IsMailable, header_calls}
use paclink_unix.Mime.Headers.Whole.{plain_bytes-IsPlain}
use paclink_unix.Mime.RoundTrip.{IsReady, HasBody, wl2mime-mime2wl}
use paclink_unix.Filter.{stored, no_record, mail_wl2k}
use paclink_unix.Filter.Kept.{mail_wl2k-mime2wl}
use paclink_unix.Mime.NoBody.{wl2mime-mime2wl_no_body}

-- "# a", "mycall=N0C", "timeout = 90", and email = "a b"
abbrev before_email : List Item
before_email =
    comment [] (codes " a")
    ∷ plain b'm' (codes "ycall") b'N' (codes "0C")
    ∷ unquoted b't' (codes "imeout") b'9' (codes "0")
    ∷ []

abbrev email : Item
email = quoted b'e' (codes "mail") b'a' (codes " b")

conf_get-conf_read_example :
    (conf_read (some (file_of (before_email ++ email ∷ [])))
      ≡ some (settings_of (before_email ++ email ∷ [])))
    × (conf_get (settings_of (before_email ++ email ∷ [])) (codes "email") ≡ some (codes "a b"))
unfolding isspace
conf_get-conf_read_example =
    conf_get-conf_read before_email email [] (record { var = codes "email"; value = codes "a b" })
      (
        (tt, ((λ e. omega arith, λ e. omega arith), ((λ e. omega arith, λ e. omega arith), tt))),
        (ground arith, (ground arith, (ground arith, tt))),
      )
      refl ((λ t e v. cc), ((λ t e v. cc), ((λ t e v. cc), tt)))

abbrev system : System
system = record { now = 7; strftime = λ t. some (codes "2006/01/02 03:04"); address_of = λ s. 4096 }

abbrev read_date : Bytes → Option ℕ
read_date s = some 5

abbrev text_part : Part
text_part = record { filename = none; content_type = text_plain; content = codes "Hello" }

abbrev file_part : Part
file_part = record {
  filename = some (codes "a.gif");
  content_type = other_type;
  content = 13 ∷ 0 ∷ 255 ∷ [];
}

abbrev letter : Message
letter = record {
  date = 1;
  sender = some (codes "Bob <n0c@winlink.org>");
  to = codes "a@b.c" ∷ codes "N1C" ∷ [];
  cc = [];
  bcc = [];
  subject = some (codes "Hi");
  reply_to = none;
  objects = cons multipart (cons (part file_part) (cons (part text_part) nil));
}

abbrev from : Bytes
from = codes "n0c@winlink.org"

letter-IsReady : IsReady system (codes "2006/01/02 03:04") letter from (codes "Hi")
unfolding address_cleanup in_brackets skip_spaces isspace strchr cut_at
letter-IsReady = record {
  sender = codes "Bob <n0c@winlink.org>";
  sent = refl;
  address = refl;
  titled = refl;
  dated = refl;
  low = omega arith;
  high = omega arith;
  short = omega arith;
}

letter-IsMailable : IsMailable (codes "ABC_N0C") (codes "2006/01/02 03:04") letter from (codes "Hi")
unfolding address_cleanup in_brackets skip_spaces isspace strchr cut_at strcasebegins
    strncasecmp_zero tolower isupper
letter-IsMailable = record {
  mid_field = (plain_bytes-IsPlain (codes "ABC_N0C") refl, refl);
  date_field = (plain_bytes-IsPlain (codes "2006/01/02 03:04") refl, refl);
  from_mailbox = (plain_bytes-IsPlain from refl, (refl, λ e. refl));
  to_mailboxes = (
    (plain_bytes-IsPlain (codes "a@b.c") refl, (refl, λ e. refl)),
    ((plain_bytes-IsPlain (codes "N1C") refl, (refl, λ e. refl)), tt),
  );
  cc_mailboxes = tt;
  bcc_mailboxes = tt;
  subject_field = (plain_bytes-IsPlain (codes "Hi") refl, refl);
  reply_field = tt;
}

letter-HasBody : HasBody letter (file_part ∷ []) text_part []
unfolding skip_spaces isspace
letter-HasBody = record {
  parted = refl;
  files = (refl, tt);
  body = refl;
  small = omega arith;
  sendable = (((plain_bytes-IsPlain (codes "a.gif") refl, refl), omega arith), tt);
}

-- The letter as the other station builds it
wl2mime-mime2wl_example :
    (text : Bytes) × (mime2wl system (some (codes "ABC_N0C")) letter ≡ buffer text)
    × (wl2mime read_date text
        ≡ header_calls (codes "ABC_N0C") 5 letter from (codes "Hi")
          ++ add_body (codes "Hello") ∷ map file_call (file_part ∷ []))
wl2mime-mime2wl_example =
    wl2mime-mime2wl system read_date (codes "ABC_N0C") (codes "2006/01/02 03:04") 5 letter from
      (codes "Hi") (file_part ∷ []) text_part [] letter-IsReady letter-IsMailable refl
      letter-HasBody

-- The same letter with the attached file alone
abbrev picture : Message
picture = record letter { objects = cons (part file_part) nil }

picture-IsReady : IsReady system (codes "2006/01/02 03:04") picture from (codes "Hi")
unfolding letter-IsReady
picture-IsReady = record {
  sender = codes "Bob <n0c@winlink.org>";
  sent = refl;
  address = letter-IsReady.address;
  titled = refl;
  dated = refl;
  low = omega arith;
  high = omega arith;
  short = omega arith;
}

picture-IsMailable :
    IsMailable (codes "ABC_N0C") (codes "2006/01/02 03:04") picture from (codes "Hi")
picture-IsMailable = record {
  mid_field = letter-IsMailable.mid_field;
  date_field = letter-IsMailable.date_field;
  from_mailbox = letter-IsMailable.from_mailbox;
  to_mailboxes = letter-IsMailable.to_mailboxes;
  cc_mailboxes = tt;
  bcc_mailboxes = tt;
  subject_field = letter-IsMailable.subject_field;
  reply_field = tt;
}

wl2mime-mime2wl_no_body_example :
    (text : Bytes) × (more : List Call) × (mime2wl system (some (codes "ABC_N0C")) picture
      ≡ buffer text)
    × (wl2mime read_date text
        ≡ header_calls (codes "ABC_N0C") 5 picture from (codes "Hi")
          ++ add_body (read_chars 17 (drop 2 (attached (file_part ∷ [])))).0 ∷ more)
wl2mime-mime2wl_no_body_example =
    wl2mime-mime2wl_no_body system read_date (codes "ABC_N0C") (codes "2006/01/02 03:04") 5 picture
      from (codes "Hi") picture-IsReady picture-IsMailable refl (refl, tt)
      (plain_bytes-IsPlain (codes "a.gif") refl, tt)

-- What is read for the body: the file's three bytes, then EOF as a byte
picture_body :
    (read_chars 17 (drop 2 (attached (file_part ∷ [])))).0
    ≡ 13 ∷ 0 ∷ 255 ∷ 255 ∷ 255 ∷ 255 ∷ 255 ∷ 255 ∷ 255 ∷ 255 ∷ 255 ∷ 255 ∷ 255 ∷ 255 ∷ 255 ∷ 255
      ∷ 255 ∷ []
unfolding read_chars
picture_body = refl

mbo_header_lem_example :
    mbo_header 4096 (codes "n0c@winlink.org") ≡ some (mbo_of (codes "n0c@winlink.org"))
mbo_header_lem_example =
    mbo_header_lem 4096 (codes "n0c@winlink.org") (omega arith) (omega arith) (omega arith)

mbo_runs :
    (mbo_of (codes "n0c@winlink.org") ≡ codes "n0c") × (mbo_of (codes "a@b.c") ≡ codes "SMTP:a@b.c")
unfolding mbo_of strchr strncasecmp_zero tolower isupper
mbo_runs = (refl, refl)

letter_text :
    mime2wl system (some (codes "ABC_N0C")) letter
    ≡ buffer (
        codes
          "Mid: ABC_N0C\r\nDate: 2006/01/02 03:04\r\nType: Private\r\nFrom: SMTP:n0c@winlink.org\r\nTo: SMTP:a@b.c\r\nTo: N1C\r\nSubject: Hi\r\nMbo: n0c\r\nBody: 5\r\nFile: 3 a.gif\r\n\r\nHello\r\n"
        ++ 13 ∷ 0 ∷ 255 ∷ [])
unfolding mime2wl decimal mbo_header strchr skip_spaces isspace cut_at strncasecmp_zero
    add_attachment add_body_part
letter_text = refl

-- The letter as the filter stores it, with option -m
mail_wl2k-mime2wl_example :
    (text : Bytes) × (mime2wl system (some (codes "ABC_N0C")) letter ≡ buffer text)
    × (mail_wl2k
          (λ s. true)
          system
          (λ recorded call. some (codes "ABC_N0C"))
          (some (codes "N0C"))
          (no_record ∷ [])
          letter
        ≡ stored (codes "ABC_N0C") text)
mail_wl2k-mime2wl_example =
    mail_wl2k-mime2wl (λ s. true) (codes "ABC_N0C") (ground arith) system (codes "2006/01/02 03:04")
      letter from (codes "Hi") (λ recorded call. some (codes "ABC_N0C")) (codes "N0C")
      (no_record ∷ []) letter-IsReady (tt, tt) refl refl
