-- ===== src/Mime/Headers/Whole.antt =====
-- mime2wl.c: every line of the header that mime2wl writes is one line.
use paclink_unix.Common.{
  ℕ, zero, suc, ◌-◌, ◌<◌, ◌≡◌, refl, inl, inr, Bool, true, not, ◌&&◌, Option, none, some, List, [],
  ◌∷◌, ◌++◌, arith, ltb, ◌==◌, Bool-cases, Option-cases, All, All-append, length, take, drop, codes,
}
use paclink_unix.Strutil.{strchr, strncasecmp_zero}
use paclink_unix.Number.{decimal, digit_char}
use paclink_unix.Number.Laws.{digits-All, digit_char_plain}
use paclink_unix.Mime.{Bytes, Part, Message}
use paclink_unix.Mime.Address.{address_cleanup, winlink}
use paclink_unix.Mime.Address.Laws.{mbo_of}
use paclink_unix.Mime.ToWinlink.{smtp_address, name_of}
use paclink_unix.Mime.ToMime.Text.{IsPlain, IsLine}
use paclink_unix.Mime.Parts.{file_lines}
use paclink_unix.Mime.Headers.{
  recipients, reply_lines, header_lines, IsMailbox, IsReply, IsMailable,
}

abbrev pub plain_byte : ℕ → Bool
plain_byte c = not (c == 0) && (not (c == 10) && not (c == 13))

abbrev pub plain_bytes : Bytes → Bool
plain_bytes [] = true
plain_bytes (c ∷ s) = plain_byte c && plain_bytes s

plain_byte-IsPlain : (c : ℕ) → plain_byte c ≡ true → IsPlain c
plain_byte-IsPlain c h = (λ e. ground arith, λ e. ground arith, λ e. ground arith)

-- For the names of the headers
pub plain_bytes-IsPlain : (s : Bytes) → plain_bytes s ≡ true → All IsPlain s
plain_bytes-IsPlain [] h = tt
plain_bytes-IsPlain (c ∷ s) h =
    (plain_byte-IsPlain c (ground arith), plain_bytes-IsPlain s (ground arith))

name-IsPlain : (name v : Bytes) → plain_bytes name ≡ true → All IsPlain v → All IsPlain (name ++ v)
name-IsPlain name v h k = All-append IsPlain name v (plain_bytes-IsPlain name h) k

smtp_address-IsPlain : (c : Bytes) → All IsPlain c → All IsPlain (smtp_address c)
unfolding smtp_address
smtp_address-IsPlain c h =
    elim (strchr b'@' c) as (λ o. All IsPlain (elim o [ none ↦ c | some s ↦ codes "SMTP:" ++ c ])) [
      | none ↦ h
      | some s ↦ name-IsPlain (codes "SMTP:") c refl h
    ]

recipients-IsLine :
    (d : ℕ) (name : Bytes) (rs : List Bytes)
    → plain_bytes (d ∷ name) ≡ true
    → All (λ r. IsMailbox (address_cleanup r)) rs
    → All IsLine (recipients (d ∷ name) rs)
recipients-IsLine d name [] k h = tt
recipients-IsLine d name (r ∷ rs) k h = (
  name-IsPlain (d ∷ name) (smtp_address (address_cleanup r)) k
      (smtp_address-IsPlain (address_cleanup r) h.0.0),
  recipients-IsLine d name rs k h.1,
)

reply_lines-IsLine : (r : Option Bytes) → IsReply r → All IsLine (reply_lines r)
reply_lines-IsLine none h = tt
reply_lines-IsLine (some s) h = (name-IsPlain (codes "Reply-To: ") s refl h.0, tt)

take-All : (n : ℕ) (s : Bytes) → All IsPlain s → All IsPlain (take n s)
take-All zero s h = tt
take-All (suc n) [] h = tt
take-All (suc n) (c ∷ s) h = (h.0, take-All n s h.1)

mbo_of-IsPlain : (from : Bytes) → All IsPlain from → All IsPlain (mbo_of from)
unfolding mbo_of
mbo_of-IsPlain from h = elim (Option-cases (strchr b'@' from)) [
  | inl absent ↦ rw (absent, mbo_of) h
  | inr (rest, at) ↦
      elim (Bool-cases (ltb 1 (length rest) && not (strncasecmp_zero 7 (drop 1 rest) winlink))) [
        | inl other ↦ rw (at, mbo_of) (rw other (name-IsPlain (codes "SMTP:") from refl h))
        | inr ours ↦ rw (at, mbo_of) (rw ours (take-All (length from - length rest) from h))
      ]
]

digit-IsPlain : (d : ℕ) → d < 10 → IsPlain (digit_char d)
digit-IsPlain d h =
    let plain = digit_char_plain d (omega arith) in
    (λ e. omega arith, λ e. omega arith, λ e. omega arith)

decimal-IsPlain : (n : ℕ) → All IsPlain (decimal n)
unfolding decimal
decimal-IsPlain n = digits-All IsPlain (suc n) n [] digit-IsPlain tt

pub body-IsLine : (n : ℕ) → IsLine (codes "Body: " ++ decimal n)
body-IsLine n = name-IsPlain (codes "Body: ") (decimal n) refl (decimal-IsPlain n)

pub no_body-IsLine : IsLine (codes "No message body")
no_body-IsLine = plain_bytes-IsPlain (codes "No message body") refl

pub file_lines-IsLine :
    (ps : List Part) → All (λ p. All IsPlain (name_of p)) ps → All IsLine (file_lines ps)
file_lines-IsLine [] h = tt
file_lines-IsLine (p ∷ ps) h = (
  name-IsPlain (codes "File: ") (decimal (length p.content) ++ b' ' ∷ name_of p) refl (
      All-append IsPlain (decimal (length p.content)) (b' ' ∷ name_of p)
        (decimal-IsPlain (length p.content)) (plain_byte-IsPlain b' ' refl, h.0)),
  file_lines-IsLine ps h.1,
)

pub header_lines-IsLine :
    (mid date : Bytes) (msg : Message) (from subject : Bytes)
    → IsMailable mid date msg from subject
    → All IsLine (header_lines mid date msg from subject (mbo_of from))
header_lines-IsLine mid date msg from subject h = (
  name-IsPlain (codes "Mid: ") mid refl h.mid_field.0,
  (
    name-IsPlain (codes "Date: ") date refl h.date_field.0,
    (
      plain_bytes-IsPlain (codes "Type: Private") refl,
      (
        name-IsPlain (codes "From: ") (smtp_address from) refl
            (smtp_address-IsPlain from h.from_mailbox.0),
        All-append IsLine (recipients (codes "To: ") msg.to) _
            (recipients-IsLine b'T' (codes "o: ") msg.to refl h.to_mailboxes)
            (All-append IsLine (recipients (codes "Cc: ") msg.cc) _
              (recipients-IsLine b'C' (codes "c: ") msg.cc refl h.cc_mailboxes)
              (All-append IsLine (recipients (codes "Bcc: ") msg.bcc) _
                (recipients-IsLine b'B' (codes "cc: ") msg.bcc refl h.bcc_mailboxes)
                (
                  name-IsPlain (codes "Subject: ") subject refl h.subject_field.0,
                  All-append IsLine (reply_lines msg.reply_to) _
                      (reply_lines-IsLine msg.reply_to h.reply_field)
                      (
                        name-IsPlain (codes "Mbo: ") (mbo_of from) refl
                            (mbo_of-IsPlain from h.from_mailbox.0),
                        tt,
                      ),
                ))),
      ),
    ),
  ),
)
