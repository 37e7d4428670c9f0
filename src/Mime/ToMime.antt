-- ===== src/Mime/ToMime.antt =====
-- wl2mime.c: wl2mime, up to the calls of GMime that build the message.
pub mod Text
pub mod Lines
use paclink_unix.Common.{
  ℕ, zero, suc, ◌||◌, Option, none, some, List, [], ◌∷◌, ◌++◌, ◌==◌, if◌then◌else◌, drop, codes,
  concat,
}
use paclink_unix.Strutil.{strchr, strcasebegins, strzapcc, cut_at}
use paclink_unix.Number.{skip_spaces, strtoul}
use paclink_unix.Conf.{text_lines, starts_with}
use paclink_unix.Mime.{
  Bytes, Role, Call, set_message_id, set_date, set_sender, add_recipient, set_reply_to, set_subject,
  add_body, add_file,
}

-- The header, up to a line that begins with a carriage return or a line feed, and the body behind it,
-- from the lines of the input. A header line is a string: a NUL ends it.
unfoldable pub split_message : List Bytes → Bytes × Bytes
split_message [] = ([], [])
split_message (l ∷ ls) =
    let line = cut_at 0 l in
    let (h, b) = split_message ls in
    if starts_with (λ c. c == 13 || c == 10) line then ([], concat ls) else (line ++ h, b)

-- What stands behind the colon and spaces of a line; without a colon it is NULL, and nothing reads it.
unfoldable pub linedata : Bytes → Bytes
linedata line = elim (strchr b':' line) [ none ↦ [] | some s ↦ skip_spaces (drop 1 s) ]

-- The address that a line names: one behind "SMTP:", or a user of the Winlink system.
unfoldable pub mailbox_of : Bytes → Bytes
mailbox_of s = if strcasebegins s (codes "SMTP:") then drop 5 s else s ++ codes "@winlink.org"

-- The next `n` characters of the body; at its end `(char) EOF` is written.
unfoldable pub read_chars : ℕ → Bytes → Bytes × Bytes
read_chars zero s = ([], s)
read_chars (suc n) [] = let (t, rest) = read_chars n [] in (255 ∷ t, rest)
read_chars (suc n) (c ∷ s) = let (t, rest) = read_chars n s in (c ∷ t, rest)

-- `bbuf` is what is left of the body, and `calls` what the message has been given, in order.
pub record Builder : Type 0 where
  pub bbuf : Bytes
  pub calls : List Call

abbrev pub call : Builder → Call → Builder
call b c = record b { calls = b.calls ++ c ∷ [] }

unfoldable pub on_body : Bytes → Builder → Builder
unfolding read_chars
on_body value b =
    let len = (strtoul 10 value).0 in
    let (t, rest) = read_chars len b.bbuf in
    record b { bbuf = rest; calls = b.calls ++ add_body t ∷ [] }

unfoldable pub on_file : Bytes → Builder → Builder
unfolding read_chars
on_file value b =
    let (len, endp) = strtoul 10 value in
    let (t, rest) = read_chars len (drop 2 b.bbuf) in
    record b { bbuf = rest; calls = b.calls ++ add_file (skip_spaces endp) t ∷ [] }

-- strptime ("%Y/%m/%d %R") and wl_timegm; `none` is NULL.
module _ (read_date : Bytes → Option ℕ) where
  abbrev pub on_date : Bytes → Builder → Builder
  on_date value b = elim (read_date value) [ none ↦ b | some t ↦ call b (set_date t) ]

  -- One line of the header, without its end
  unfoldable pub on_line : Bytes → Builder → Builder
  unfolding mailbox_of linedata on_body on_file
  on_line line b =
      let value = linedata line in
      if strcasebegins line (codes "Mid:")
      then call b (set_message_id value)
      else if strcasebegins line (codes "Date:")
      then on_date value b
      else if strcasebegins line (codes "From:")
      then call b (set_sender (mailbox_of value))
      else if strcasebegins line (codes "To:")
      then call b (add_recipient Role.to (mailbox_of value))
      else if strcasebegins line (codes "Cc:")
      then call b (add_recipient Role.cc (mailbox_of value))
      else if strcasebegins line (codes "Bcc:")
      then call b (add_recipient Role.bcc (mailbox_of value))
      else if strcasebegins line (codes "Reply-To:")
      then call b (set_reply_to value)
      else if strcasebegins line (codes "Subject:")
      then call b (set_subject value)
      else if strcasebegins line (codes "Body:")
      then on_body value b
      else if strcasebegins line (codes "File:")
      then on_file value b
      else b

  unfoldable pub on_headers : List Bytes → Builder → Builder
  on_headers [] b = b
  on_headers (l ∷ ls) b = on_headers ls (on_line (strzapcc (cut_at 0 l)) b)

  -- The calls by which the message is built that the function then prints
  unfoldable pub wl2mime : Bytes → List Call
  unfolding split_message on_headers on_line
  wl2mime text =
      let (h, body) = split_message (text_lines text) in
      (on_headers (text_lines h) (record { bbuf = body; calls = [] })).calls
