-- ===== src/Mime/ToMime/Lines.antt =====
-- wl2mime.c: what each line of the header does.
use paclink_unix.Common.{
  ℕ, ◌^◌, ◌<◌, ◌≡◌, refl, sym, ap, ◌∙◌, inl, inr, false, Option, none, some, List, [], ◌∷◌, ◌++◌,
  append-nil, arith, Option-cases, length, drop, codes,
}
use paclink_unix.Strutil.{isspace, strchr, strcasebegins, strncasecmp_zero, tolower, isupper}
use paclink_unix.Number.{skip_spaces, strtoul, decimal, digit_value}
use paclink_unix.Number.Laws.{strtoul-decimal, Stops, skip_spaces-decimal}
use paclink_unix.Mime.{
  Bytes, Role, Call, set_message_id, set_date, set_sender, add_recipient, set_reply_to, set_subject,
  add_body, add_file,
}
use paclink_unix.Mime.ToWinlink.{smtp_address}
use paclink_unix.Mime.ToMime.{
  mailbox_of, read_chars, Builder, call, on_body, on_file, on_date, on_line,
}

-- A value that no space stands in front of
abbrev pub IsValue : Bytes → Type 0
IsValue v = skip_spaces v ≡ v

-- What wl2mime takes for the address `c` of mime2wl
pub received : Bytes → Bytes
received c = elim (strchr b'@' c) [ none ↦ c ++ codes "@winlink.org" | some s ↦ c ]

skip_front : (v : Bytes) → IsValue v → skip_spaces (b' ' ∷ v) ≡ v
unfolding skip_spaces isspace
skip_front v h = h

-- An address with no at sign that mime2wl leaves as it is must not look like one with "SMTP:".
abbrev pub IsAddress : Bytes → Type 0
IsAddress c = IsValue c × (strchr b'@' c ≡ none → strcasebegins c (codes "SMTP:") ≡ false)

mailbox_of-smtp_address : (c : Bytes) → IsAddress c → mailbox_of (smtp_address c) ≡ received c
unfolding mailbox_of smtp_address received strcasebegins strncasecmp_zero tolower isupper
mailbox_of-smtp_address c h = elim (Option-cases (strchr b'@' c)) [
  | inl plain ↦ rw (plain, smtp_address) (rw (h.1 plain) (rw (plain, received)))
  | inr (s, at) ↦ rw (at, smtp_address) (rw (at, received))
]

smtp_value : (c : Bytes) → IsAddress c → skip_spaces (b' ' ∷ smtp_address c) ≡ smtp_address c
unfolding smtp_address skip_spaces isspace
smtp_value c h = elim (Option-cases (strchr b'@' c)) [
  | inl plain ↦ rw (plain, smtp_address) h.0
  | inr (s, at) ↦ rw (at, smtp_address)
]

-- Where an address stands behind the name of its header
address_value :
    (c : Bytes) → IsAddress c → mailbox_of (skip_spaces (b' ' ∷ smtp_address c)) ≡ received c
address_value c h = rw (smtp_value c h) (mailbox_of-smtp_address c h)

pub read_chars-append : (s rest : Bytes) → read_chars (length s) (s ++ rest) ≡ (s, rest)
unfolding read_chars
read_chars-append [] rest = refl
read_chars-append (c ∷ s) rest = rw (read_chars-append s rest)

number_value :
    (n : ℕ) (tail : Bytes)
    → n < 2 ^ 64
    → Stops 10 tail
    → strtoul 10 (skip_spaces (b' ' ∷ (decimal n ++ tail))) ≡ (n, tail)
unfolding skip_spaces isspace
number_value n tail h k = ap (strtoul 10) (skip_spaces-decimal n tail) ∙ strtoul-decimal n tail h k

number_alone : (n : ℕ) → n < 2 ^ 64 → strtoul 10 (skip_spaces (b' ' ∷ decimal n)) ≡ (n, [])
number_alone n h =
    ap (λ (s : Bytes). strtoul 10 (skip_spaces (b' ' ∷ s))) (sym (append-nil (decimal n)))
    ∙ number_value n [] h tt

module _ (read_date : Bytes → Option ℕ) where
  pub on_mid :
      (v : Bytes) (b : Builder)
      → IsValue v
      → on_line read_date (codes "Mid: " ++ v) b ≡ call b (set_message_id v)
  unfolding on_line strcasebegins strchr
  on_mid v b h = ap (λ (s : Bytes). call b (set_message_id s)) (skip_front v h)

  pub on_date_line :
      (v : Bytes) (t : ℕ) (b : Builder)
      → IsValue v
      → read_date v ≡ some t
      → on_line read_date (codes "Date: " ++ v) b ≡ call b (set_date t)
  unfolding on_line strcasebegins strchr
  on_date_line v t b h e =
      ap (λ (s : Bytes). on_date read_date s b) (skip_front v h) ∙ rw (e, on_date)

  pub on_type : (v : Bytes) (b : Builder) → on_line read_date (codes "Type: " ++ v) b ≡ b
  unfolding on_line strcasebegins strchr
  on_type v b = refl

  pub on_mbo : (v : Bytes) (b : Builder) → on_line read_date (codes "Mbo: " ++ v) b ≡ b
  unfolding on_line strcasebegins strchr
  on_mbo v b = refl

  pub on_from :
      (c : Bytes) (b : Builder)
      → IsAddress c
      → on_line read_date (codes "From: " ++ smtp_address c) b ≡ call b (set_sender (received c))
  unfolding on_line strcasebegins strchr
  on_from c b h = ap (λ (s : Bytes). call b (set_sender s)) (address_value c h)

  pub on_to :
      (c : Bytes) (b : Builder)
      → IsAddress c
      → on_line read_date (codes "To: " ++ smtp_address c) b
        ≡ call b (add_recipient Role.to (received c))
  unfolding on_line strcasebegins strchr
  on_to c b h = ap (λ (s : Bytes). call b (add_recipient Role.to s)) (address_value c h)

  pub on_cc :
      (c : Bytes) (b : Builder)
      → IsAddress c
      → on_line read_date (codes "Cc: " ++ smtp_address c) b
        ≡ call b (add_recipient Role.cc (received c))
  unfolding on_line strcasebegins strchr
  on_cc c b h = ap (λ (s : Bytes). call b (add_recipient Role.cc s)) (address_value c h)

  pub on_bcc :
      (c : Bytes) (b : Builder)
      → IsAddress c
      → on_line read_date (codes "Bcc: " ++ smtp_address c) b
        ≡ call b (add_recipient Role.bcc (received c))
  unfolding on_line strcasebegins strchr
  on_bcc c b h = ap (λ (s : Bytes). call b (add_recipient Role.bcc s)) (address_value c h)

  pub on_subject :
      (v : Bytes) (b : Builder)
      → IsValue v
      → on_line read_date (codes "Subject: " ++ v) b ≡ call b (set_subject v)
  unfolding on_line strcasebegins strchr
  on_subject v b h = ap (λ (s : Bytes). call b (set_subject s)) (skip_front v h)

  pub on_reply_to :
      (v : Bytes) (b : Builder)
      → IsValue v
      → on_line read_date (codes "Reply-To: " ++ v) b ≡ call b (set_reply_to v)
  unfolding on_line strcasebegins strchr
  on_reply_to v b h = ap (λ (s : Bytes). call b (set_reply_to s)) (skip_front v h)

  -- The body's line takes as many bytes as it says.
  pub on_body_line :
      (s rest : Bytes) (cs : List Call)
      → length s < 2 ^ 64
      → on_line read_date
          (codes "Body: " ++ decimal (length s))
          (record { bbuf = s ++ rest; calls = cs })
        ≡ record { bbuf = rest; calls = cs ++ add_body s ∷ [] }
  unfolding on_line strcasebegins strchr on_body
  on_body_line s rest cs h = rw (number_alone (length s) h, on_body) (rw (read_chars-append s rest))

  pub on_file_line :
      (name s rest : Bytes) (cs : List Call)
      → IsValue name
      → length s < 2 ^ 64
      → on_line read_date
          (codes "File: " ++ (decimal (length s) ++ b' ' ∷ name))
          (record { bbuf = 13 ∷ 10 ∷ (s ++ rest); calls = cs })
        ≡ record { bbuf = rest; calls = cs ++ add_file name s ∷ [] }
  unfolding on_line strcasebegins strchr on_file digit_value
  on_file_line name s rest cs v h =
      rw (number_value (length s) (b' ' ∷ name) h (omega arith), on_file)
        (rw (read_chars-append s rest, skip_front name v))

  pub on_nobody : (b : Builder) → on_line read_date (codes "No message body") b ≡ b
  unfolding on_line strcasebegins strchr
  on_nobody b = refl

  -- A body's line whatever is left of the body
  pub on_body_any :
      (n : ℕ) (bbuf : Bytes) (cs : List Call)
      → n < 2 ^ 64
      → on_line read_date (codes "Body: " ++ decimal n) (record { bbuf = bbuf; calls = cs })
        ≡ record { bbuf = (read_chars n bbuf).1; calls = cs ++ add_body (read_chars n bbuf).0 ∷ [] }
  unfolding on_line strcasebegins strchr on_body
  on_body_any n bbuf cs h = rw (number_alone n h, on_body)

  -- A file's line adds one call.
  pub on_file_any :
      (v : Bytes) (b : Builder)
      → (c : Call) × ((on_line read_date (codes "File: " ++ v) b).calls ≡ b.calls ++ c ∷ [])
  unfolding on_line strcasebegins strchr on_file
  on_file_any v b = (
    add_file (skip_spaces (strtoul 10 (skip_spaces (b' ' ∷ v))).1)
        (read_chars (strtoul 10 (skip_spaces (b' ' ∷ v))).0 (drop 2 b.bbuf)).0,
    refl,
  )
