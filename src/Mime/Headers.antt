-- ===== src/Mime/Headers.antt =====
-- mime2wl.c and wl2mime.c: the headers of a message on both sides.
pub mod Whole
use paclink_unix.Common.{
  ℕ, ◌≡◌, refl, sym, ap, ap₂, subst, ◌∙◌, Option, none, some, List, [], ◌∷◌, ◌++◌, map, append-nil,
  append_assoc, All, codes,
}
use paclink_unix.Strutil.{strchr, strncasecmp_zero}
use paclink_unix.Number.{decimal, digits, digit_char}
use paclink_unix.Number.Laws.{digits-All}
use paclink_unix.Mime.{
  Bytes, crlf, Part, Message, Role, Call, set_message_id, set_date, set_sender, add_recipient,
  set_reply_to, set_subject,
}
use paclink_unix.Mime.Address.{address_cleanup, winlink}
use paclink_unix.Mime.Address.Laws.{mbo_of}
use paclink_unix.Mime.ToWinlink.{
  line_with, smtp_address, recipient_lines, reply_to_line, headers, name_of,
}
use paclink_unix.Mime.ToMime.{Builder, call, on_line}
use paclink_unix.Mime.ToMime.Text.{
  text_of, text_of-append, on_lines, on_lines-append, IsPlain, IsLine,
}
use paclink_unix.Mime.ToMime.Lines.{
  IsValue, IsAddress, received, on_mid, on_date_line, on_type, on_mbo, on_from, on_to, on_cc,
  on_bcc, on_subject, on_reply_to,
}
use paclink_unix.Mime.Parts.{file_line, file_lines}

abbrev pub recipients : Bytes → List Bytes → List Bytes
recipients name [] = []
recipients name (r ∷ rs) = (name ++ smtp_address (address_cleanup r)) ∷ recipients name rs

abbrev pub reply_lines : Option Bytes → List Bytes
reply_lines none = []
reply_lines (some s) = (codes "Reply-To: " ++ s) ∷ []

-- The headers of mime2wl as lines
abbrev pub header_lines : Bytes → Bytes → Message → Bytes → Bytes → Bytes → List Bytes
header_lines mid date msg from subject mbo =
    (codes "Mid: " ++ mid)
    ∷ (codes "Date: " ++ date)
    ∷ codes "Type: Private"
    ∷ (codes "From: " ++ smtp_address from)
    ∷ (recipients (codes "To: ") msg.to
        ++ (recipients (codes "Cc: ") msg.cc
            ++ (recipients (codes "Bcc: ") msg.bcc
                ++ (codes "Subject: " ++ subject)
                  ∷ (reply_lines msg.reply_to ++ (codes "Mbo: " ++ mbo) ∷ []))))

recipient_lines-text_of :
    (name : Bytes) (rs : List Bytes) → recipient_lines name rs ≡ text_of (recipients name rs)
unfolding recipient_lines
recipient_lines-text_of name [] = refl
recipient_lines-text_of name (r ∷ rs) =
    ap₂ (λ (x y : Bytes). x ++ y) (sym (append_assoc name (smtp_address (address_cleanup r)) crlf))
      (recipient_lines-text_of name rs)

reply_to_line-text_of : (r : Option Bytes) → reply_to_line r ≡ text_of (reply_lines r)
unfolding reply_to_line
reply_to_line-text_of none = refl
reply_to_line-text_of (some s) = sym (append-nil (codes "Reply-To: " ++ (s ++ crlf)))

pub headers-text_of :
    (mid date : Bytes) (msg : Message) (from subject mbo : Bytes)
    → headers mid date msg from subject mbo ≡ text_of (header_lines mid date msg from subject mbo)
unfolding headers
headers-text_of mid date msg from subject mbo =
    simp (recipient_lines-text_of, reply_to_line-text_of, text_of-append, append-nil)

-- A value of a header, the address of a mailbox, and the name and size of a part, that pass unchanged
abbrev pub IsField : Bytes → Type 0
IsField v = All IsPlain v × IsValue v

abbrev pub IsMailbox : Bytes → Type 0
IsMailbox c = All IsPlain c × IsAddress c

abbrev pub IsReply : Option Bytes → Type 0
IsReply none = Unit
IsReply (some s) = IsField s

-- What is asked of a message and of the id and date that it gets, for it to pass unchanged
pub record IsMailable (mid date : Bytes) (msg : Message) (from subject : Bytes) : Type 0 where
  pub mid_field : IsField mid
  pub date_field : IsField date
  pub from_mailbox : IsMailbox from
  pub to_mailboxes : All (λ r. IsMailbox (address_cleanup r)) msg.to
  pub cc_mailboxes : All (λ r. IsMailbox (address_cleanup r)) msg.cc
  pub bcc_mailboxes : All (λ r. IsMailbox (address_cleanup r)) msg.bcc
  pub subject_field : IsField subject
  pub reply_field : IsReply msg.reply_to

abbrev pub to_calls : Role → List Bytes → List Call
to_calls role = map (λ r. add_recipient role (received (address_cleanup r)))

abbrev pub reply_calls : Option Bytes → List Call
reply_calls none = []
reply_calls (some s) = set_reply_to s ∷ []

-- What the other side builds from the headers: every field and recipient, in order.
abbrev pub header_calls : Bytes → ℕ → Message → Bytes → Bytes → List Call
header_calls mid t msg from subject =
    set_message_id mid
    ∷ set_date t
    ∷ set_sender (received from)
    ∷ (to_calls Role.to msg.to
        ++ (to_calls Role.cc msg.cc
            ++ (to_calls Role.bcc msg.bcc ++ set_subject subject ∷ reply_calls msg.reply_to)))

module _ (read_date : Bytes → Option ℕ) where
  -- The lines add these calls, and take nothing of the body.
  abbrev pub Adds : List Bytes → List Call → Type 0
  Adds ls cs = (b : Builder) → on_lines read_date ls b ≡ record b { calls = b.calls ++ cs }

  Adds-nothing : Adds [] []
  Adds-nothing b = ap (λ (cs : List Call). record b { calls = cs }) (sym (append-nil b.calls))

  Adds-append :
      (xs ys : List Bytes) (cs ds : List Call)
      → Adds xs cs
      → Adds ys ds
      → Adds (xs ++ ys) (cs ++ ds)
  Adds-append xs ys cs ds h k b =
      on_lines-append read_date xs ys b
      ∙ ap (on_lines read_date ys) (h b)
      ∙ k (record b { calls = b.calls ++ cs })
      ∙ ap (λ (es : List Call). record b { calls = es }) (append_assoc b.calls cs ds)

  -- A line that makes one call, in front of others
  Adds-cons :
      (l : Bytes) (ys : List Bytes) (c : Call) (ds : List Call)
      → ((b : Builder) → on_line read_date l b ≡ call b c)
      → Adds ys ds
      → Adds (l ∷ ys) (c ∷ ds)
  Adds-cons l ys c ds h = Adds-append (l ∷ []) ys (c ∷ []) ds h

  Adds-recipients :
      (name : Bytes) (role : Role) (rs : List Bytes)
      → ((c : Bytes) (b : Builder)
          → IsAddress c
          → on_line read_date (name ++ smtp_address c) b ≡ call b (add_recipient role (received c)))
      → All (λ r. IsMailbox (address_cleanup r)) rs
      → Adds (recipients name rs) (to_calls role rs)
  Adds-recipients name role [] f h = Adds-nothing
  Adds-recipients name role (r ∷ rs) f h =
      Adds-cons (name ++ smtp_address (address_cleanup r)) (recipients name rs)
        (add_recipient role (received (address_cleanup r))) (to_calls role rs)
        (λ b. f (address_cleanup r) b h.0.1) (Adds-recipients name role rs f h.1)

  Adds-reply : (r : Option Bytes) → IsReply r → Adds (reply_lines r) (reply_calls r)
  Adds-reply none h b = Adds-nothing b
  Adds-reply (some s) h b = on_reply_to read_date s b h.1

  -- A line that adds nothing
  Adds-skip :
      (l : Bytes) (ys : List Bytes) (ds : List Call)
      → ((b : Builder) → on_line read_date l b ≡ b)
      → Adds ys ds
      → Adds (l ∷ ys) ds
  Adds-skip l ys ds h k b = ap (on_lines read_date ys) (h b) ∙ k b

  Adds-mbo :
      (mbo : Bytes) (r : Option Bytes)
      → IsReply r
      → Adds (reply_lines r ++ (codes "Mbo: " ++ mbo) ∷ []) (reply_calls r)
  Adds-mbo mbo r h =
      subst (Adds (reply_lines r ++ (codes "Mbo: " ++ mbo) ∷ [])) (append-nil (reply_calls r)) (
        Adds-append (reply_lines r) ((codes "Mbo: " ++ mbo) ∷ []) (reply_calls r) []
          (Adds-reply r h)
          (Adds-skip (codes "Mbo: " ++ mbo) [] [] (on_mbo read_date mbo) Adds-nothing))

  pub on_lines-header_lines :
      (mid date : Bytes) (t : ℕ) (msg : Message) (from subject mbo : Bytes)
      → IsMailable mid date msg from subject
      → read_date date ≡ some t
      → Adds (header_lines mid date msg from subject mbo) (header_calls mid t msg from subject)
  on_lines-header_lines mid date t msg from subject mbo h e =
      let subject_line = codes "Subject: " ++ subject in
      let tail = reply_lines msg.reply_to ++ (codes "Mbo: " ++ mbo) ∷ [] in
      let tail_calls = reply_calls msg.reply_to in
      let bccs = recipients (codes "Bcc: ") msg.bcc in
      let bcc_calls = to_calls Role.bcc msg.bcc in
      let ccs = recipients (codes "Cc: ") msg.cc in
      let cc_calls = to_calls Role.cc msg.cc in
      let k₁ : Adds (subject_line ∷ tail) (set_subject subject ∷ tail_calls) =
        Adds-cons subject_line tail (set_subject subject) tail_calls
          (λ b. on_subject read_date subject b h.subject_field.1)
          (Adds-mbo mbo msg.reply_to h.reply_field) in
      let k₂ : Adds (bccs ++ subject_line ∷ tail) (bcc_calls ++ set_subject subject ∷ tail_calls) =
        Adds-append bccs _ bcc_calls _
          (Adds-recipients (codes "Bcc: ") Role.bcc msg.bcc (on_bcc read_date) h.bcc_mailboxes)
          k₁ in
      let k₃ =
        Adds-append ccs (bccs ++ subject_line ∷ tail) cc_calls
          (bcc_calls ++ set_subject subject ∷ tail_calls)
          (Adds-recipients (codes "Cc: ") Role.cc msg.cc (on_cc read_date) h.cc_mailboxes) k₂ in
      let people = recipients (codes "To: ") msg.to ++ (ccs ++ (bccs ++ subject_line ∷ tail)) in
      let people_calls =
        to_calls Role.to msg.to ++ (cc_calls ++ (bcc_calls ++ set_subject subject ∷ tail_calls)) in
      let k₄ : Adds people people_calls =
        Adds-append (recipients (codes "To: ") msg.to) (ccs ++ (bccs ++ subject_line ∷ tail))
          (to_calls Role.to msg.to) (cc_calls ++ (bcc_calls ++ set_subject subject ∷ tail_calls))
          (Adds-recipients (codes "To: ") Role.to msg.to (on_to read_date) h.to_mailboxes) k₃ in
      let from_line = codes "From: " ++ smtp_address from in
      let k₅ : Adds (from_line ∷ people) (set_sender (received from) ∷ people_calls) =
        Adds-cons from_line people (set_sender (received from)) people_calls
          (λ b. on_from read_date from b h.from_mailbox.1) k₄ in
      let k₆ : Adds (codes "Type: Private" ∷ from_line ∷ people)
          (set_sender (received from) ∷ people_calls) =
        Adds-skip (codes "Type: Private") (from_line ∷ people)
          (set_sender (received from) ∷ people_calls) (λ b. on_type read_date (codes "Private") b)
          k₅ in
      let k₇ : Adds ((codes "Date: " ++ date) ∷ codes "Type: Private" ∷ from_line ∷ people)
          (set_date t ∷ set_sender (received from) ∷ people_calls) =
        Adds-cons (codes "Date: " ++ date) (codes "Type: Private" ∷ from_line ∷ people) (set_date t)
          (set_sender (received from) ∷ people_calls)
          (λ b. on_date_line read_date date t b h.date_field.1 e) k₆ in
      Adds-cons (codes "Mid: " ++ mid)
        ((codes "Date: " ++ date) ∷ codes "Type: Private" ∷ from_line ∷ people) (set_message_id mid)
        (set_date t ∷ set_sender (received from) ∷ people_calls)
        (λ b. on_mid read_date mid b h.mid_field.1) k₇
