-- ===== src/Mime/RoundTrip.antt =====
-- mime2wl.c and wl2mime.c: a message that mime2wl has converted, read by wl2mime.
use paclink_unix.Common.{
  ℕ, ◌+◌, ◌^◌, ◌≤◌, ◌<◌, ◌≡◌, ap, ◌∙◌, Option, some, List, [], ◌∷◌, ◌++◌, map, append_assoc,
  map-append, All, All-append, length, codes,
}
use paclink_unix.Number.{decimal}
use paclink_unix.Mime.{Bytes, crlf, Part, Message, Call, add_body}
use paclink_unix.Mime.Address.{address_cleanup}
use paclink_unix.Mime.Address.Laws.{mbo_of, mbo_header_lem}
use paclink_unix.Mime.ToWinlink.{
  Wl2kMessage, name_of, supply_body, joined, buffer, System, time_of, convert, mime2wl,
}
use paclink_unix.Mime.ToMime.{Builder, wl2mime}
use paclink_unix.Mime.ToMime.Text.{
  text_of, text_of-append, on_lines, on_lines-append, IsPlain, IsLine, wl2mime-text_of,
}
use paclink_unix.Mime.ToMime.Lines.{IsValue, on_body_line}
use paclink_unix.Mime.Parts.{
  all_parts, add_parts, mime_foreach-add_parts, file_lines, file_call, attached, attached-append,
  started, CanBeBody, IsFile, add_parts_whole, on_lines_files,
}
use paclink_unix.Mime.Headers.{
  header_lines, headers-text_of, IsField, IsMailable, header_calls, on_lines-header_lines,
}
use paclink_unix.Mime.Headers.Whole.{body-IsLine, file_lines-IsLine, header_lines-IsLine}

-- A part whose name and size pass unchanged
abbrev pub IsSendable : Part → Type 0
IsSendable p = IsField (name_of p) × (length p.content < 2 ^ 64)

-- What the conversion of a message's headers comes to: its sender and subject are there, the date
-- is written as `date`, and `from` is the sender's address.
pub record IsReady (sys : System) (date : Bytes) (msg : Message) (from subject : Bytes)
    : Type 0 where
  pub sender : Bytes
  pub sent : msg.sender ≡ some sender
  pub address : address_cleanup sender ≡ from
  pub titled : msg.subject ≡ some subject
  pub dated : sys.strftime (time_of sys msg) ≡ some date
  pub low : 0 < sys.address_of from
  pub high : sys.address_of from < 2 ^ 47
  pub short : length from + 6 ≤ 2 ^ 31

module _ (sys : System) (mid date : Bytes) (msg : Message) (from subject : Bytes)
    (r : IsReady sys date msg from subject) where
  pub convert-add_parts :
      convert sys mid date msg from subject
      ≡ buffer (
          joined (
            supply_body (
              add_parts
                (all_parts msg.objects)
                (started (text_of (header_lines mid date msg from subject (mbo_of from)))))))
  unfolding convert
  convert-add_parts =
      rw (mbo_header_lem (sys.address_of from) from r.low r.high r.short, convert)
        (rw (headers-text_of mid date msg from subject (mbo_of from)) (
          ap (λ (w : Wl2kMessage). buffer (joined (supply_body w)))
            (mime_foreach-add_parts msg.objects _)))

  pub mime2wl-convert : mime2wl sys (some mid) msg ≡ convert sys mid date msg from subject
  unfolding mime2wl
  mime2wl-convert =
      rw (r.dated, mime2wl)
        (rw (r.sent)
          (rw (r.titled) (ap (λ (s : Bytes). convert sys mid date msg s subject) r.address)))

-- The text of a message with a body
abbrev text_with : List Bytes → List Part → Part → List Part → Bytes
text_with h before p after =
    text_of (h ++ (codes "Body: " ++ decimal (length p.content)) ∷ file_lines (before ++ after))
    ++ (crlf ++ (p.content ++ attached (before ++ after)))

joined_whole :
    (h : List Bytes) (before : List Part) (p : Part) (after : List Part)
    → All IsFile before
    → CanBeBody p
    → joined (supply_body (add_parts (before ++ p ∷ after) (started (text_of h))))
      ≡ text_with h before p after
unfolding supply_body
joined_whole h before p after files body =
    rw (add_parts_whole (text_of h) before p after files body, supply_body)
      (simp (text_of-append, map-append, attached-append, append_assoc))

passing :
    (ps : List Part)
    → All IsSendable ps
    → All (λ p. IsValue (name_of p) × (length p.content < 2 ^ 64)) ps
passing [] h = tt
passing (p ∷ ps) h = ((h.0.0.1, h.0.1), passing ps h.1)

named : (ps : List Part) → All IsSendable ps → All (λ p. All IsPlain (name_of p)) ps
named [] h = tt
named (p ∷ ps) h = (h.0.0.0, named ps h.1)

module _ (read_date : Bytes → Option ℕ) where
  on_lines_whole :
      (h : List Bytes) (cs : List Call) (p : Part) (ps : List Part)
      → ((b : Builder) → on_lines read_date h b ≡ record b { calls = b.calls ++ cs })
      → length p.content < 2 ^ 64
      → All IsSendable ps
      → on_lines read_date
          (h ++ (codes "Body: " ++ decimal (length p.content)) ∷ file_lines ps)
          (record { bbuf = p.content ++ attached ps; calls = [] })
        ≡ record { bbuf = []; calls = cs ++ add_body p.content ∷ map file_call ps }
  on_lines_whole h cs p ps adds small sendable =
      let body = codes "Body: " ++ decimal (length p.content) in
      on_lines-append read_date h (body ∷ file_lines ps) _
      ∙ ap (on_lines read_date (body ∷ file_lines ps)) (adds _)
      ∙ ap (on_lines read_date (file_lines ps))
          (on_body_line read_date p.content (attached ps) cs small)
      ∙ on_lines_files read_date ps (cs ++ add_body p.content ∷ []) (passing ps sendable)
      ∙ ap (λ (l : List Call). record { bbuf = []; calls = l })
          (append_assoc cs (add_body p.content ∷ []) (map file_call ps))

-- A message whose first part that can be the body comes with only files in front, and with files
-- and other parts behind it
pub record HasBody (msg : Message) (before : List Part) (p : Part) (after : List Part)
    : Type 0 where
  pub parted : all_parts msg.objects ≡ before ++ p ∷ after
  pub files : All IsFile before
  pub body : CanBeBody p
  pub small : length p.content < 2 ^ 64
  pub sendable : All IsSendable (before ++ after)

-- What mime2wl writes for a message, wl2mime reads as the same message: with GMime it sets the id,
-- the date, the sender, every recipient in order and in its role, the subject and the address for
-- replies, takes as body exactly the first part that can be the body, and adds every other part,
-- those of enclosed messages included, as a file with its name and exactly its bytes. An address
-- with an at sign comes back as it was, and one without as a user of winlink.org. The message has a
-- part that can be the body; its header values have no NUL or line end and no space in front, an
-- address without an at sign does not begin with "SMTP:", and parts are below 2 ^ 64 bytes; the
-- date, as strftime writes it, is read back by strptime as t.
pub wl2mime-mime2wl :
    (sys : System) (read_date : Bytes → Option ℕ) (mid date : Bytes) (t : ℕ) (msg : Message)
    (from subject : Bytes) (before : List Part) (p : Part) (after : List Part)
    → IsReady sys date msg from subject
    → IsMailable mid date msg from subject
    → read_date date ≡ some t
    → HasBody msg before p after
    → (text : Bytes) × (mime2wl sys (some mid) msg ≡ buffer text)
      × (wl2mime read_date text
          ≡ header_calls mid t msg from subject
            ++ add_body p.content ∷ map file_call (before ++ after))
wl2mime-mime2wl sys read_date mid date t msg from subject before p after r m e parts =
    let h = header_lines mid date msg from subject (mbo_of from) in
    let body = codes "Body: " ++ decimal (length p.content) in
    let ps = before ++ after in
    (
      text_with h before p after,
      mime2wl-convert sys mid date msg from subject r
          ∙ convert-add_parts sys mid date msg from subject r
          ∙ ap
              (λ (qs : List Part).
                buffer (joined (supply_body (add_parts qs (started (text_of h))))))
              parts.parted
          ∙ ap buffer (joined_whole h before p after parts.files parts.body),
      wl2mime-text_of read_date (h ++ body ∷ file_lines ps) (p.content ++ attached ps) (
            All-append IsLine h (body ∷ file_lines ps)
              (header_lines-IsLine mid date msg from subject m)
              (body-IsLine (length p.content), file_lines-IsLine ps (named ps parts.sendable)))
          ∙ ap (λ (b : Builder). b.calls)
              (on_lines_whole read_date h (header_calls mid t msg from subject) p ps
                (on_lines-header_lines read_date mid date t msg from subject (mbo_of from) m e)
                parts.small parts.sendable),
    )
