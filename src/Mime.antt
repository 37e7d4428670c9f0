-- ===== src/Mime.antt =====
-- mime2wl.c and wl2mime.c: messages between MIME and the format of the Winlink system. A buffer is
-- its contents here, and memory is granted: Buffer.Write and Buffer.Lines are about the buffers
-- themselves. GMime, which parses and prints MIME, is outside: this file has what it tells of a
-- message, and the calls by which one is built.
pub mod Address
pub mod ToWinlink
pub mod ToMime
pub mod Parts
pub mod Headers
pub mod RoundTrip
pub mod NoBody
use paclink_unix.Common.{ℕ, Option, List, [], ◌∷◌}

-- What the code asks of a part's content type.
pub data ContentType : Type 0 where
  text_plain text_html text_other other_type : ContentType

abbrev pub Bytes : Type 0
Bytes = List ℕ

abbrev pub crlf : Bytes
crlf = 13 ∷ 10 ∷ []

pub record Part : Type 0 where
  pub filename : Option Bytes
  pub content_type : ContentType
  pub content : Bytes

-- The objects that g_mime_message_foreach visits, in its order; it does not descend into a message
-- that is a part itself.
mutual
  pub data Object : Type 0 where
    message_part : Objects → Object
    message_partial multipart : Object
    part : Part → Object

  pub data Objects : Type 0 where
    nil : Objects
    cons : Object → Objects → Objects

-- What GMime tells of a parsed message; `none` is NULL. An address list is that of the printed
-- addresses.
pub record Message : Type 0 where
  pub date : ℕ
  pub sender : Option Bytes
  pub to : List Bytes
  pub cc : List Bytes
  pub bcc : List Bytes
  pub subject : Option Bytes
  pub reply_to : Option Bytes
  pub objects : Objects

-- GMIME_RECIPIENT_TYPE_
pub data Role : Type 0 where
  to cc bcc : Role

-- The calls that build a message, with what they are given; those of GMime 2, which the build sets.
-- A part is added with its content, an attached one with its file name in front.
pub data Call : Type 0 where
  set_message_id : Bytes → Call
  set_date : ℕ → Call
  set_sender : Bytes → Call
  add_recipient : Role → Bytes → Call
  set_reply_to : Bytes → Call
  set_subject : Bytes → Call
  add_body : Bytes → Call
  add_file : Bytes → Bytes → Call
