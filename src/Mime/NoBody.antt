-- ===== src/Mime/NoBody.antt =====
-- mime2wl.c and wl2mime.c: a message none of whose parts can be the body.
use paclink_unix.Common.{
  ℕ, ◌≡◌, sym, ap, ◌∙◌, Option, some, List, [], ◌∷◌, ◌++◌, append-nil, append_assoc, arith, All,
  All-append, length, drop, codes,
}
use paclink_unix.Number.{decimal}
use paclink_unix.Mime.{Bytes, Part, Message, Call, add_body}
use paclink_unix.Mime.Address.Laws.{mbo_of}
use paclink_unix.Mime.ToWinlink.{name_of, nobody, supply_body, joined, buffer, System, mime2wl}
use paclink_unix.Mime.ToMime.{Builder, on_line, read_chars, wl2mime}
use paclink_unix.Mime.ToMime.Text.{
  text_of, text_of-append, on_lines, on_lines-append, IsPlain, IsLine, wl2mime-text_of,
  wl2mime-open,
}
use paclink_unix.Mime.ToMime.Lines.{on_nobody, on_body_any, on_file_any}
use paclink_unix.Mime.Parts.{
  all_parts, add_parts, file_lines, attached, started, IsFile, add_parts_files,
}
use paclink_unix.Mime.Headers.{header_lines, IsMailable, header_calls, on_lines-header_lines}
use paclink_unix.Mime.Headers.Whole.{
  no_body-IsLine, body-IsLine, file_lines-IsLine, header_lines-IsLine,
}
use paclink_unix.Mime.RoundTrip.{IsReady, convert-add_parts, mime2wl-convert}

abbrev no_body : Bytes
no_body = codes "No message body"

abbrev lines_without : List Bytes → List Part → List Bytes
lines_without h ps =
    h ++ (codes "Body: " ++ decimal (length nobody)) ∷ (file_lines ps ++ no_body ∷ [])

joined_without :
    (h : List Bytes) (ps : List Part)
    → All IsFile ps
    → joined (supply_body (add_parts ps (started (text_of h))))
      ≡ text_of (lines_without h ps) ++ attached ps
unfolding supply_body
joined_without h ps files =
    rw (add_parts_files (text_of h) ps files, supply_body) (simp (text_of-append, append_assoc))

module _ (read_date : Bytes → Option ℕ) where
  -- The text that is there for the body is a line of the header.
  wl2mime_without :
      (ls : List Bytes) (ps : List Part)
      → All IsLine ls
      → wl2mime read_date (text_of ls ++ attached ps)
        ≡ (on_lines read_date ls (record { bbuf = drop 2 (attached ps); calls = [] })).calls
  wl2mime_without ls [] h =
      ap (wl2mime read_date) (append-nil (text_of ls)) ∙ wl2mime-open read_date ls h
  wl2mime_without ls (p ∷ ps) h = wl2mime-text_of read_date ls (p.content ++ attached ps) h

  on_lines_more :
      (ps : List Part) (b : Builder)
      → (more : List Call) × ((on_lines read_date (file_lines ps) b).calls ≡ b.calls ++ more)
  on_lines_more [] b = ([], sym (append-nil b.calls))
  on_lines_more (p ∷ ps) b =
      let v = decimal (length p.content) ++ b' ' ∷ name_of p in
      let (c, one) = on_file_any read_date v b in
      let (more, e) = on_lines_more ps (on_line read_date (codes "File: " ++ v) b) in
      (c ∷ more, e ∙ ap (λ (l : List Call). l ++ more) one ∙ append_assoc b.calls (c ∷ []) more)

  on_lines_without :
      (h : List Bytes) (cs : List Call) (ps : List Part) (bbuf : Bytes)
      → ((b : Builder) → on_lines read_date h b ≡ record b { calls = b.calls ++ cs })
      → (more : List Call) × ((on_lines read_date
            (lines_without h ps)
            (record { bbuf = bbuf; calls = [] })).calls
          ≡ cs ++ add_body (read_chars (length nobody) bbuf).0 ∷ more)
  on_lines_without h cs ps bbuf adds =
      let line = codes "Body: " ++ decimal (length nobody) in
      let chars = read_chars (length nobody) bbuf in
      let b : Builder = record { bbuf = chars.1; calls = cs ++ add_body chars.0 ∷ [] } in
      let (more, e) = on_lines_more ps b in
      (
        more,
        ap (λ (c : Builder). c.calls)
              (on_lines-append read_date h (line ∷ (file_lines ps ++ no_body ∷ [])) _
                ∙ ap (on_lines read_date (line ∷ (file_lines ps ++ no_body ∷ []))) (adds _)
                ∙ ap (on_lines read_date (file_lines ps ++ no_body ∷ []))
                    (on_body_any read_date (length nobody) bbuf cs (omega arith))
                ∙ on_lines-append read_date (file_lines ps) (no_body ∷ []) b
                ∙ on_nobody read_date (on_lines read_date (file_lines ps) b))
            ∙ e
            ∙ append_assoc cs (add_body chars.0 ∷ []) more,
      )

-- A message with no part that can be the body does not arrive with the text "No message body" that
-- mime2wl gives it: that text has no blank line in front, so that wl2mime takes it for a header,
-- and as body it reads the first seventeen bytes of the attachments, with bytes 255 where they end.
-- The header values and file names pass as lines, and the date is read back.
pub wl2mime-mime2wl_no_body :
    (sys : System) (read_date : Bytes → Option ℕ) (mid date : Bytes) (t : ℕ) (msg : Message)
    (from subject : Bytes)
    → IsReady sys date msg from subject
    → IsMailable mid date msg from subject
    → read_date date ≡ some t
    → All IsFile (all_parts msg.objects)
    → All (λ p. All IsPlain (name_of p)) (all_parts msg.objects)
    → (text : Bytes) × (more : List Call) × (mime2wl sys (some mid) msg ≡ buffer text)
      × (wl2mime read_date text
          ≡ header_calls mid t msg from subject
            ++ add_body (read_chars 17 (drop 2 (attached (all_parts msg.objects)))).0 ∷ more)
wl2mime-mime2wl_no_body sys read_date mid date t msg from subject r m e files named =
    let h = header_lines mid date msg from subject (mbo_of from) in
    let ps = all_parts msg.objects in
    let (more, run) =
      on_lines_without read_date h (header_calls mid t msg from subject) ps (drop 2 (attached ps))
        (on_lines-header_lines read_date mid date t msg from subject (mbo_of from) m e) in
    (
      text_of (lines_without h ps) ++ attached ps,
      more,
      mime2wl-convert sys mid date msg from subject r
          ∙ convert-add_parts sys mid date msg from subject r
          ∙ ap buffer (joined_without h ps files),
      wl2mime_without read_date (lines_without h ps) ps (
            All-append IsLine h _ (header_lines-IsLine mid date msg from subject m) (
              body-IsLine (length nobody),
              All-append IsLine (file_lines ps) (no_body ∷ []) (file_lines-IsLine ps named)
                  (no_body-IsLine, tt),
            ))
          ∙ run,
    )
