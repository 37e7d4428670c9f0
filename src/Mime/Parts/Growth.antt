-- ===== src/Mime/Parts/Growth.antt =====
-- mime2wl.c: what comes behind the headers.
use paclink_unix.Common.{
  ◌≡◌, refl, sym, ap, ◌∙◌, inl, inr, ◌&&◌, List, [], ◌∷◌, ◌++◌, append-nil, append_assoc,
  Bool-cases, length, codes,
}
use paclink_unix.Number.{decimal}
use paclink_unix.Mime.{Bytes, Part}
use paclink_unix.Mime.ToWinlink.{
  Wl2kMessage, line_with, nobody, is_nil, is_none, is_readable, add_part, add_body_part,
  add_attachment, supply_body, joined,
}
use paclink_unix.Mime.Parts.{add_parts, started}

-- Parts only add behind the headers that are there.
abbrev pub Extends : Bytes → Bytes → Type 0
Extends s t = (more : Bytes) × (t ≡ s ++ more)

add_part-Extends : (p : Part) (w : Wl2kMessage) → Extends w.hbuf (add_part p w).hbuf
unfolding add_part add_body_part add_attachment
add_part-Extends p w =
    elim (Bool-cases (is_none p.filename && (is_nil w.bbuf && is_readable p.content_type))) [
      | inl body ↦
          rw (body, add_part) (line_with (codes "Body: ") (decimal (length p.content)), refl)
      | inr file ↦ rw (file, add_part) ([], sym (append-nil w.hbuf))
    ]

add_parts-Extends : (ps : List Part) (w : Wl2kMessage) → Extends w.hbuf (add_parts ps w).hbuf
unfolding add_parts
add_parts-Extends [] w = ([], sym (append-nil w.hbuf))
add_parts-Extends (p ∷ ps) w =
    let (more, e) = add_part-Extends p w in
    let (rest, f) = add_parts-Extends ps (add_part p w) in
    (more ++ rest, f ∙ ap (λ l. l ++ rest) e ∙ append_assoc w.hbuf more rest)

supply_body-Extends : (w : Wl2kMessage) → Extends w.hbuf (supply_body w).hbuf
unfolding supply_body
supply_body-Extends w = elim (Bool-cases (is_nil w.bbuf)) [
  | inl missing ↦
      rw (missing, supply_body) (line_with (codes "Body: ") (decimal (length nobody)), refl)
  | inr there ↦ rw (there, supply_body) ([], sym (append-nil w.hbuf))
]

regroup : (h more rest tail : Bytes) → ((h ++ more) ++ rest) ++ tail ≡ h ++ (more ++ (rest ++ tail))
regroup h more rest tail = simp append_assoc

-- The text that is written begins with the headers.
pub text-Extends :
    (ps : List Part) (h : Bytes) → Extends h (joined (supply_body (add_parts ps (started h))))
text-Extends ps h =
    let (more, e) = add_parts-Extends ps (started h) in
    let w = add_parts ps (started h) in
    let (rest, f) = supply_body-Extends w in
    let v = supply_body w in
    let tail = v.fbuf ++ (v.bbuf ++ v.abuf) in
    (
      more ++ (rest ++ tail),
      ap (λ l. l ++ tail) (f ∙ ap (λ l. l ++ rest) e) ∙ regroup h more rest tail,
    )
