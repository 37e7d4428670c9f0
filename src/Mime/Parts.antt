-- ===== src/Mime/Parts.antt =====
-- mime2wl.c and wl2mime.c: the parts of a message on both sides.
pub mod Growth
use paclink_unix.Common.{
  ℕ, ◌^◌, ◌<◌, ◌≡◌, refl, sym, ap, ap₂, ◌∙◌, Bool, true, false, ◌&&◌, Option, List, [], ◌∷◌, ◌++◌,
  map, append-nil, append_assoc, All, length, codes,
}
use paclink_unix.Number.{decimal}
use paclink_unix.Mime.{
  Bytes, crlf, Part, Object, message_part, message_partial, multipart, part, Objects, nil, cons,
  Call, add_file,
}
use paclink_unix.Mime.ToWinlink.{
  Wl2kMessage, line_with, is_nil, is_none, is_readable, name_of, add_body_part, add_attachment,
  add_part, mime_foreach_callback, mime_foreach,
}
use paclink_unix.Mime.ToMime.Text.{text_of, on_lines}
use paclink_unix.Mime.ToMime.Lines.{IsValue, on_file_line}

-- The leaf parts of a message in order, those of messages within it included.
abbrev mutual
  pub parts_of : Object → List Part
  parts_of (message_part os) = all_parts os
  parts_of message_partial = []
  parts_of multipart = []
  parts_of (part p) = p ∷ []

  pub all_parts : Objects → List Part
  all_parts nil = []
  all_parts (cons o os) = parts_of o ++ all_parts os

pub add_parts : List Part → Wl2kMessage → Wl2kMessage
add_parts [] w = w
add_parts (p ∷ ps) w = add_parts ps (add_part p w)

pub add_parts-append :
    (ps qs : List Part) (w : Wl2kMessage) → add_parts (ps ++ qs) w ≡ add_parts qs (add_parts ps w)
unfolding add_parts
add_parts-append [] qs w = refl
add_parts-append (p ∷ ps) qs w = add_parts-append ps qs (add_part p w)

mutual
  unfolding mime_foreach_callback mime_foreach add_parts

  callback-add_parts :
      (o : Object) (w : Wl2kMessage) → mime_foreach_callback o w ≡ add_parts (parts_of o) w
  callback-add_parts (message_part os) w = foreach-add_parts os w
  callback-add_parts message_partial w = refl
  callback-add_parts multipart w = refl
  callback-add_parts (part p) w = refl

  foreach-add_parts :
      (os : Objects) (w : Wl2kMessage) → mime_foreach os w ≡ add_parts (all_parts os) w
  foreach-add_parts nil w = refl
  foreach-add_parts (cons o os) w =
      foreach-add_parts os (mime_foreach_callback o w)
      ∙ ap (add_parts (all_parts os)) (callback-add_parts o w)
      ∙ sym (add_parts-append (parts_of o) (all_parts os) w)

pub mime_foreach-add_parts :
    (os : Objects) (w : Wl2kMessage) → mime_foreach os w ≡ add_parts (all_parts os) w
mime_foreach-add_parts os w = foreach-add_parts os w

abbrev pub file_line : Part → Bytes
file_line p = codes "File: " ++ (decimal (length p.content) ++ b' ' ∷ name_of p)

abbrev pub file_lines : List Part → List Bytes
file_lines = map file_line

abbrev pub file_call : Part → Call
file_call p = add_file (name_of p) p.content

-- The attachments as the body has them
abbrev pub attached : List Part → Bytes
attached [] = []
attached (p ∷ ps) = crlf ++ (p.content ++ attached ps)

pub attached-append : (ps qs : List Part) → attached (ps ++ qs) ≡ attached ps ++ attached qs
attached-append [] qs = refl
attached-append (p ∷ ps) qs =
    ap (λ (s : Bytes). crlf ++ s)
      (ap (λ (s : Bytes). p.content ++ s) (attached-append ps qs)
        ∙ sym (append_assoc p.content (attached ps) (attached qs)))

-- A part that is attached behind the body `bbuf`
abbrev pub IsAttached : Bytes → Part → Type 0
IsAttached bbuf p = (is_none p.filename && (is_nil bbuf && is_readable p.content_type)) ≡ false

attach : (p : Part) (w : Wl2kMessage) → IsAttached w.bbuf p → add_part p w ≡ add_attachment p w
unfolding add_part
attach p w h = rw h

pub add_parts-attached :
    (ps : List Part) (w : Wl2kMessage)
    → All (IsAttached w.bbuf) ps
    → add_parts ps w
      ≡ record w { fbuf = w.fbuf ++ text_of (file_lines ps); abuf = w.abuf ++ attached ps }
unfolding add_parts add_attachment
add_parts-attached [] w h =
    ap₂ (λ (f a : Bytes). record w { fbuf = f; abuf = a }) (sym (append-nil w.fbuf))
      (sym (append-nil w.abuf))
add_parts-attached (p ∷ ps) w h =
    ap (add_parts ps) (attach p w h.0)
    ∙ add_parts-attached ps (add_attachment p w) h.1
    ∙ ap₂ (λ (f a : Bytes). record w { fbuf = f; abuf = a })
        (append_assoc w.fbuf (file_line p ++ crlf) (text_of (file_lines ps)))
        (append_assoc w.abuf (crlf ++ p.content) (attached ps))

-- The buffers when the headers are written
abbrev pub started : Bytes → Wl2kMessage
started h = record { hbuf = h; fbuf = []; bbuf = []; abuf = [] }

-- A part that can be the body
abbrev pub CanBeBody : Part → Type 0
CanBeBody p = (is_none p.filename && is_readable p.content_type) ≡ true

abbrev pub IsFile : Part → Type 0
IsFile p = (is_none p.filename && is_readable p.content_type) ≡ false

take_body :
    (p : Part) (w : Wl2kMessage)
    → CanBeBody p
    → is_nil w.bbuf ≡ true
    → add_part p w ≡ add_body_part p w
unfolding add_part
take_body p w h e = rw (e, h)

IsFile-IsAttached : (ps : List Part) → All IsFile ps → All (IsAttached []) ps
IsFile-IsAttached [] h = tt
IsFile-IsAttached (p ∷ ps) h = (h.0, IsFile-IsAttached ps h.1)

and_false : (x : Bool) → (x && false) ≡ false
and_false true = refl
and_false false = refl

behind_body-IsAttached : (c : ℕ) (s : Bytes) (ps : List Part) → All (IsAttached (c ∷ s)) ps
behind_body-IsAttached c s [] = tt
behind_body-IsAttached c s (p ∷ ps) =
    (and_false (is_none p.filename), behind_body-IsAttached c s ps)

-- The first part that can be the body is, and all others are attached.
pub add_parts_whole :
    (h : Bytes) (before : List Part) (p : Part) (after : List Part)
    → All IsFile before
    → CanBeBody p
    → add_parts (before ++ p ∷ after) (started h) ≡ record {
      hbuf = h ++ line_with (codes "Body: ") (decimal (length p.content));
      fbuf = text_of (file_lines before) ++ text_of (file_lines after);
      bbuf = crlf ++ p.content;
      abuf = attached before ++ attached after;
    }
unfolding add_parts add_body_part
add_parts_whole h before p after files body =
    let w = record (started h) { fbuf = text_of (file_lines before); abuf = attached before } in
    add_parts-append before (p ∷ after) (started h)
    ∙ ap (add_parts (p ∷ after))
        (add_parts-attached before (started h) (IsFile-IsAttached before files))
    ∙ ap (add_parts after) (take_body p w body refl)
    ∙ add_parts-attached after (add_body_part p w)
        (behind_body-IsAttached 13 (10 ∷ p.content) after)

-- Without such a part all are attached.
pub add_parts_files :
    (h : Bytes) (ps : List Part)
    → All IsFile ps
    → add_parts ps (started h)
      ≡ record (started h) { fbuf = text_of (file_lines ps); abuf = attached ps }
add_parts_files h ps files = add_parts-attached ps (started h) (IsFile-IsAttached ps files)

-- Each file's line takes the bytes of its file.
pub on_lines_files :
    (read_date : Bytes → Option ℕ) (ps : List Part) (cs : List Call)
    → All (λ p. IsValue (name_of p) × (length p.content < 2 ^ 64)) ps
    → on_lines read_date (file_lines ps) (record { bbuf = attached ps; calls = cs })
      ≡ record { bbuf = []; calls = cs ++ map file_call ps }
on_lines_files read_date [] cs h =
    ap (λ (l : List Call). record { bbuf = []; calls = l }) (sym (append-nil cs))
on_lines_files read_date (p ∷ ps) cs h =
    ap (on_lines read_date (file_lines ps))
      (on_file_line read_date (name_of p) p.content (attached ps) cs h.0.0 h.0.1)
    ∙ on_lines_files read_date ps (cs ++ file_call p ∷ []) h.1
    ∙ ap (λ (l : List Call). record { bbuf = []; calls = l })
        (append_assoc cs (file_call p ∷ []) (map file_call ps))
