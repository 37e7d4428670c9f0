-- ===== src/Mime/ToWinlink.antt =====
-- mime2wl.c: mime2wl and the callback that it gives to g_mime_message_foreach.
use paclink_unix.Common.{
  ℕ, Bool, true, false, ◌&&◌, Option, none, some, List, [], ◌∷◌, ◌++◌, ◌==◌, if◌then◌else◌, length,
  codes,
}
use paclink_unix.Strutil.{strchr}
use paclink_unix.Number.{decimal}
use paclink_unix.Mime.{
  ContentType, text_plain, text_html, other_type, Bytes, crlf, Part, Object, message_part,
  message_partial, multipart, part, Objects, nil, cons, Message,
}
use paclink_unix.Mime.Address.{mbo_header, address_cleanup}

-- struct wl2kmessage: headers, headers of the attachments, body and attachments
pub record Wl2kMessage : Type 0 where
  pub hbuf : Bytes
  pub fbuf : Bytes
  pub bbuf : Bytes
  pub abuf : Bytes

-- A header line
abbrev pub line_with : Bytes → Bytes → Bytes
line_with name value = name ++ (value ++ crlf)

abbrev pub is_text : ContentType → Bool
is_text other_type = false
is_text _ = true

abbrev pub is_readable : ContentType → Bool
is_readable text_plain = true
is_readable text_html = true
is_readable _ = false

abbrev pub is_nil : Bytes → Bool
is_nil [] = true
is_nil (c ∷ s) = false

abbrev pub is_none : Option Bytes → Bool
is_none none = true
is_none (some s) = false

-- A part without a file name gets one by its content type.
abbrev pub name_of : Part → Bytes
name_of p = elim p.filename [
  | some fn ↦ fn
  | none ↦ (if is_text p.content_type then codes "attachment.txt" else codes "attachment.bin")
]

unfoldable pub add_body_part : Part → Wl2kMessage → Wl2kMessage
add_body_part p w = record w {
  hbuf = w.hbuf ++ line_with (codes "Body: ") (decimal (length p.content));
  bbuf = w.bbuf ++ (crlf ++ p.content);
}

unfoldable pub add_attachment : Part → Wl2kMessage → Wl2kMessage
add_attachment p w = record w {
  fbuf = w.fbuf ++ line_with (codes "File: ") (decimal (length p.content) ++ b' ' ∷ name_of p);
  abuf = w.abuf ++ (crlf ++ p.content);
}

-- The first readable part without a file name is the body, all others are attached.
unfoldable pub add_part : Part → Wl2kMessage → Wl2kMessage
add_part p w =
    if is_none p.filename && (is_nil w.bbuf && is_readable p.content_type)
    then add_body_part p w
    else add_attachment p w

unfoldable mutual
  pub mime_foreach_callback : Object → Wl2kMessage → Wl2kMessage
  mime_foreach_callback (message_part os) w = mime_foreach os w
  mime_foreach_callback message_partial w = w
  mime_foreach_callback multipart w = w
  mime_foreach_callback (part p) w = add_part p w

  -- g_mime_message_foreach
  pub mime_foreach : Objects → Wl2kMessage → Wl2kMessage
  mime_foreach nil w = w
  mime_foreach (cons o os) w = mime_foreach os (mime_foreach_callback o w)

-- An address, with "SMTP:" in front if it has an at sign
unfoldable pub smtp_address : Bytes → Bytes
smtp_address clean = elim (strchr b'@' clean) [ none ↦ clean | some s ↦ codes "SMTP:" ++ clean ]

unfoldable pub recipient_lines : Bytes → List Bytes → Bytes
unfolding smtp_address
recipient_lines name [] = []
recipient_lines name (r ∷ rs) =
    line_with name (smtp_address (address_cleanup r)) ++ recipient_lines name rs

unfoldable pub reply_to_line : Option Bytes → Bytes
reply_to_line none = []
reply_to_line (some s) = line_with (codes "Reply-To: ") s

-- The headers that come before the parts, in their order.
unfoldable pub headers : Bytes → Bytes → Message → Bytes → Bytes → Bytes → Bytes
unfolding smtp_address recipient_lines reply_to_line
headers mid date msg from subject mbo =
    line_with (codes "Mid: ") mid
    ++ (line_with (codes "Date: ") date
        ++ (line_with (codes "Type: ") (codes "Private")
            ++ (line_with (codes "From: ") (smtp_address from)
                ++ (recipient_lines (codes "To: ") msg.to
                    ++ (recipient_lines (codes "Cc: ") msg.cc
                        ++ (recipient_lines (codes "Bcc: ") msg.bcc
                            ++ (line_with (codes "Subject: ") subject
                                ++ (reply_to_line msg.reply_to
                                    ++ line_with (codes "Mbo: ") mbo))))))))

abbrev pub nobody : Bytes
nobody = codes "No message body\r\n"

-- A message without a body gets one.
unfoldable pub supply_body : Wl2kMessage → Wl2kMessage
supply_body w =
    if is_nil w.bbuf
    then record w {
      hbuf = w.hbuf ++ line_with (codes "Body: ") (decimal (length nobody));
      bbuf = nobody;
    }
    else w

abbrev pub joined : Wl2kMessage → Bytes
joined w = w.hbuf ++ (w.fbuf ++ (w.bbuf ++ w.abuf))

-- `null` is NULL; `fault` is a read or write outside a block, such as that of a NULL string.
pub data Converted : Type 0 where
  null fault : Converted
  buffer : Bytes → Converted

-- What the program asks of the system: the clock, strftime on a time ("%Y/%m/%d %H:%M", `none` is
-- 0), and the address of a string.
pub record System : Type 0 where
  pub now : ℕ
  pub strftime : ℕ → Option Bytes
  pub address_of : Bytes → ℕ

module _ (sys : System) where
  -- The time that is written: that of the message, or the present one for 0
  unfoldable pub time_of : Message → ℕ
  time_of msg = if msg.date == 0 then sys.now else msg.date

  -- The message when its sender's address, date and subject are known
  unfoldable pub convert : Bytes → Bytes → Message → Bytes → Bytes → Converted
  unfolding headers supply_body mime_foreach mime_foreach_callback add_part
  convert mid date msg from subject = elim (mbo_header (sys.address_of from) from) [
    | none ↦ fault
    | some mbo ↦ buffer (
        joined (
          supply_body (
            mime_foreach msg.objects (record {
              hbuf = headers mid date msg from subject mbo;
              fbuf = [];
              bbuf = [];
              abuf = [];
            }))))
  ]

  -- `mid` is what generate_mid has returned.
  unfoldable pub mime2wl : Option Bytes → Message → Converted
  unfolding convert address_cleanup
  mime2wl none msg = null
  mime2wl (some mid) msg = elim (sys.strftime (time_of msg)) [
    | none ↦ null
    | some date ↦ elim msg.sender [
      | none ↦ fault
      | some sender ↦ elim msg.subject [
        | none ↦ fault
        | some subject ↦ convert mid date msg (address_cleanup sender) subject
      ]
    ]
  ]
