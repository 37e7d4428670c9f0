-- ===== src/Filter/Kept.antt =====
-- mail.wl2k.c: a message is stored as mime2wl wrote it, under the id that it was given.
use paclink_unix.Common.{
  ℕ, ◌≤◌, ◌<◌, ◌≡◌, refl, sym, ap, ◌∙◌, ◌≢◌, Bool, true, false, not, ◌&&◌, ◌||◌, Option, some, List,
  [], ◌∷◌, ◌++◌, append_assoc, arith, All, All-append, drop, codes,
}
use paclink_unix.Strutil.{
  strcasebegins, strncasecmp_zero, strzapcc, cut_at, isspace, tolower, isupper,
}
use paclink_unix.Strutil.Laws.{cut_at_stop, cut_at_fixed}
use paclink_unix.Number.{skip_spaces}
use paclink_unix.Conf.{text_lines}
use paclink_unix.Conf.Tokens.{text_lines_next}
use paclink_unix.Mime.{Bytes, Message}
use paclink_unix.Mime.ToWinlink.{buffer, System, mime2wl}
use paclink_unix.Mime.ToMime.Text.{text_of}
use paclink_unix.Mime.Parts.Growth.{text-Extends}
use paclink_unix.Mime.Parts.{all_parts}
use paclink_unix.Mime.Headers.{header_lines}
use paclink_unix.Mime.Address.Laws.{mbo_of}
use paclink_unix.Mime.RoundTrip.{IsReady, convert-add_parts, mime2wl-convert}
use paclink_unix.Filter.{stored, Flag, no_record, unknown, record_of, store, mail_wl2k}

abbrev pub is_no_record : Flag → Bool
is_no_record no_record = true
is_no_record unknown = false

-- Whether option -m is among the options
abbrev pub mentions_no_record : List Flag → Bool
mentions_no_record [] = false
mentions_no_record (f ∷ fs) = is_no_record f || mentions_no_record fs

abbrev pub IsKnown : Flag → Type 0
IsKnown no_record = Unit
IsKnown unknown = ⊥

both_false : (b : Bool) → (b && false) ≡ false
both_false true = refl
both_false false = refl

both_true : (b : Bool) → (b && true) ≡ b
both_true true = refl
both_true false = refl

record_of_known :
    (b : Bool) (fs : List Flag)
    → All IsKnown fs
    → record_of b fs ≡ some (b && not (mentions_no_record fs))
unfolding record_of
record_of_known b [] k = ap some (sym (both_true b))
record_of_known b (no_record ∷ fs) k = record_of_known false fs k.1 ∙ ap some (sym (both_false b))
record_of_known b (unknown ∷ fs) k = elim k.0 [ ]

-- An id whose bytes are no control characters and no spaces
abbrev pub IsName : Bytes → Type 0
IsName mid = All (λ c. b' ' < c) mid

IsName-free : (d : ℕ) (s : Bytes) → d ≤ b' ' → IsName s → All (λ c. c ≢ d) s
IsName-free d [] h k = tt
IsName-free d (c ∷ s) h k = ((λ e. omega (arith, k.0)), IsName-free d s h k.1)

stripped : (s : Bytes) → IsName s → strzapcc (s ++ 13 ∷ 10 ∷ []) ≡ s
unfolding strzapcc
stripped s h =
    ap (cut_at 10) (cut_at_stop 13 s (10 ∷ []) (IsName-free 13 s (omega arith) h))
    ∙ cut_at_fixed 10 s (IsName-free 10 s (omega arith) h)

skipped : (s : Bytes) → IsName s → strzapcc (skip_spaces (s ++ 13 ∷ 10 ∷ [])) ≡ s
unfolding skip_spaces isspace strzapcc cut_at
skipped [] h = refl
skipped (c ∷ s) h =
    let other : isspace c ≡ false = ground (arith, h.0) in
    rw (other, skip_spaces) (stripped (c ∷ s) h)

module _ (writable : Bytes → Bool) (mid : Bytes) (name : IsName mid) where
  abbrev first_line : Bytes
  first_line = codes "Mid: " ++ (mid ++ 13 ∷ 10 ∷ [])

  lines_of_text :
      (more : Bytes)
      → text_lines (codes "Mid: " ++ (mid ++ 13 ∷ 10 ∷ more)) ≡ first_line ∷ text_lines more
  lines_of_text more =
      let body = codes "Mid: " ++ (mid ++ 13 ∷ []) in
      let free : All (λ c. c ≢ 10) body =
        All-append (λ c. c ≢ 10) (codes "Mid: ") (mid ++ 13 ∷ []) (ground arith)
          (All-append (λ c. c ≢ 10) mid (13 ∷ []) (IsName-free 10 mid (omega arith) name)
            (ground arith)) in
      ap (λ l. text_lines (codes "Mid: " ++ l)) (sym (append_assoc mid (13 ∷ []) (10 ∷ more)))
      ∙ text_lines_next body more free
      ∙ ap (λ l. (codes "Mid: " ++ l) ∷ text_lines more) (append_assoc mid (13 ∷ []) (10 ∷ []))

  whole_line : cut_at 0 first_line ≡ first_line
  whole_line = cut_at_fixed 0 first_line (
      All-append (λ c. c ≢ 0) (codes "Mid: ") (mid ++ 13 ∷ 10 ∷ []) (ground arith)
        (All-append (λ c. c ≢ 0) mid (13 ∷ 10 ∷ []) (IsName-free 0 mid (omega arith) name)
          (ground arith)))

  line_name : strzapcc (skip_spaces (drop 4 first_line)) ≡ mid
  unfolding skip_spaces isspace
  line_name = skipped mid name

  line_begins : strcasebegins first_line (codes "Mid:") ≡ true
  unfolding strcasebegins strncasecmp_zero tolower isupper
  line_begins = refl

  store-first :
      (more : Bytes)
      → writable mid ≡ true
      → store writable (codes "Mid: " ++ (mid ++ 13 ∷ 10 ∷ more))
        ≡ stored mid (codes "Mid: " ++ (mid ++ 13 ∷ 10 ∷ more))
  unfolding store
  store-first more ok =
      rw (lines_of_text more, store) (rw whole_line (rw line_begins (rw line_name (rw ok))))

  behind_mid :
      (ls : List Bytes) (more : Bytes)
      → text_of ((codes "Mid: " ++ mid) ∷ ls) ++ more
        ≡ codes "Mid: " ++ (mid ++ 13 ∷ 10 ∷ (text_of ls ++ more))
  behind_mid ls more = simp append_assoc

  begins :
      (date : Bytes) (msg : Message) (from subject more : Bytes)
      → (rest : Bytes) × (text_of (header_lines mid date msg from subject (mbo_of from)) ++ more
          ≡ codes "Mid: " ++ (mid ++ 13 ∷ 10 ∷ rest))
  begins date msg from subject more =
      let ls = header_lines mid date msg from subject (mbo_of from) in
      (text_of (drop 1 ls) ++ more, behind_mid (drop 1 ls) more)

  -- A mail that mime2wl converts is put into the outbox: main of mail.wl2k.c stores the text that
  -- mime2wl has written, whole, under the name of the message id that generate_mid gives for the
  -- callsign; it asks for an id that is recorded unless option -m is among the options, and for one
  -- that is not if it is. The options are known, the id has no spaces and no control characters,
  -- the file can be written, and the conversion of the message's headers comes to a result.
  pub mail_wl2k-mime2wl :
      (sys : System) (date : Bytes) (msg : Message) (from subject : Bytes)
      (generate_mid : Bool → Bytes → Option Bytes) (call : Bytes) (fs : List Flag)
      → IsReady sys date msg from subject
      → All IsKnown fs
      → generate_mid (not (mentions_no_record fs)) call ≡ some mid
      → writable mid ≡ true
      → (text : Bytes) × (mime2wl sys (some mid) msg ≡ buffer text)
        × (mail_wl2k writable sys generate_mid (some call) fs msg ≡ stored mid text)
  unfolding mail_wl2k
  mail_wl2k-mime2wl sys date msg from subject generate_mid call fs r known given ok =
      let h = text_of (header_lines mid date msg from subject (mbo_of from)) in
      let (more, e) = text-Extends (all_parts msg.objects) h in
      let (rest, f) = begins date msg from subject more in
      let made : mime2wl sys (some mid) msg ≡ buffer (codes "Mid: " ++ (mid ++ 13 ∷ 10 ∷ rest)) =
        mime2wl-convert sys mid date msg from subject r
        ∙ convert-add_parts sys mid date msg from subject r
        ∙ ap buffer (e ∙ f) in
      (
        codes "Mid: " ++ (mid ++ 13 ∷ 10 ∷ rest),
        made,
        rw (record_of_known true fs known, mail_wl2k) (rw given (rw made (store-first rest ok))),
      )
