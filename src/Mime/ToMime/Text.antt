-- ===== src/Mime/ToMime/Text.antt =====
-- wl2mime.c: what wl2mime makes of a text whose lines are known.
use paclink_unix.Common.{
  ℕ, ◌≡◌, refl, sym, ap, ◌∙◌, ◌≢◌, inl, inr, false, ◌||◌, Option, List, [], ◌∷◌, ◌++◌, append-nil,
  append_assoc, arith, ◌==◌, Bool-cases, All, All-append, concat,
}
use paclink_unix.Strutil.{strzapcc, cut_at}
use paclink_unix.Strutil.Laws.{cut_at_fixed, cut_at_stop}
use paclink_unix.Conf.{text_lines, starts_with, add_to_first}
use paclink_unix.Conf.Tokens.{text_lines_next}
use paclink_unix.Mime.{Bytes, crlf}
use paclink_unix.Mime.ToMime.{split_message, Builder, on_line, on_headers, wl2mime}

-- The text of lines, each with its end
abbrev pub text_of : List Bytes → Bytes
text_of [] = []
text_of (l ∷ ls) = (l ++ crlf) ++ text_of ls

abbrev ended : List Bytes → List Bytes
ended [] = []
ended (l ∷ ls) = (l ++ crlf) ∷ ended ls

-- A byte within a line
abbrev pub IsPlain : ℕ → Type 0
IsPlain c = (c ≢ 0) × (c ≢ 10) × (c ≢ 13)

abbrev pub IsLine : Bytes → Type 0
IsLine [] = ⊥
IsLine (c ∷ l) = All IsPlain (c ∷ l)

pub text_of-append : (xs ys : List Bytes) → text_of (xs ++ ys) ≡ text_of xs ++ text_of ys
text_of-append [] ys = refl
text_of-append (x ∷ xs) ys = rw (text_of-append xs ys) (sym (append_assoc (x ++ crlf) _ _))

plain-ne : (P : ℕ → Type 0) (f : (c : ℕ) → IsPlain c → P c) (s : Bytes) → All IsPlain s → All P s
plain-ne P f [] h = tt
plain-ne P f (c ∷ s) h = (f c h.0, plain-ne P f s h.1)

no_feed : (s : Bytes) → All IsPlain s → All (λ c. c ≢ 10) (s ++ 13 ∷ [])
no_feed s h = All-append _ s (13 ∷ []) (plain-ne _ (λ c k. k.1) s h) ((λ e. omega arith), tt)

no_nul : (s : Bytes) → All IsPlain s → All (λ c. c ≢ 0) (s ++ crlf)
no_nul s h =
    All-append _ s crlf (plain-ne _ (λ c k. k.0) s h) ((λ e. omega arith), ((λ e. omega arith), tt))

line-All : (l : Bytes) → IsLine l → All IsPlain l
line-All [] h = absurd h
line-All (c ∷ l) h = h

text_lines_line :
    (l rest : Bytes)
    → All IsPlain l
    → text_lines ((l ++ crlf) ++ rest) ≡ (l ++ crlf) ∷ text_lines rest
text_lines_line l rest h =
    rw (append_assoc l crlf rest, ← append_assoc l (13 ∷ []) (10 ∷ rest))
      (text_lines_next (l ++ 13 ∷ []) rest (no_feed l h)
        ∙ ap (λ (k : Bytes). k ∷ text_lines rest) (append_assoc l (13 ∷ []) (10 ∷ [])))

text_lines-text_of :
    (ls : List Bytes) (rest : Bytes)
    → All IsLine ls
    → text_lines (text_of ls ++ rest) ≡ ended ls ++ text_lines rest
text_lines-text_of [] rest h = refl
text_lines-text_of (l ∷ ls) rest h = rw (append_assoc (l ++ crlf) (text_of ls) rest) (
    text_lines_line l (text_of ls ++ rest) (line-All l h.0)
    ∙ ap (λ (k : List Bytes). (l ++ crlf) ∷ k) (text_lines-text_of ls rest h.1))

split_line :
    (l : Bytes) (ms : List Bytes)
    → IsLine l
    → split_message ((l ++ crlf) ∷ ms) ≡ ((l ++ crlf) ++ (split_message ms).0, (split_message ms).1)
unfolding split_message starts_with
split_line [] ms h = absurd h
split_line (c ∷ l) ms h =
    let other : (c == 13 || c == 10) ≡ false = ground (arith, h.0.1, h.0.2) in
    rw (cut_at_fixed 0 ((c ∷ l) ++ crlf) (no_nul (c ∷ l) h)) (rw other)

split_lines :
    (ls ms : List Bytes)
    → All IsLine ls
    → split_message (ended ls ++ ms) ≡ (text_of ls ++ (split_message ms).0, (split_message ms).1)
split_lines [] ms h = refl
split_lines (l ∷ ls) ms h =
    rw (split_line l (ended ls ++ ms) h.0, split_lines ls ms h.1)
      (ap (λ (s : Bytes). (s, (split_message ms).1)) (sym (append_assoc (l ++ crlf) _ _)))

concat-add_to_first : (c : ℕ) (ls : List Bytes) → concat (add_to_first c ls) ≡ c ∷ concat ls
unfolding add_to_first
concat-add_to_first c [] = refl
concat-add_to_first c (l ∷ ls) = refl

-- No byte is lost between the lines.
concat-text_lines : (s : Bytes) → concat (text_lines s) ≡ s
unfolding text_lines
concat-text_lines [] = refl
concat-text_lines (c ∷ s) = elim (Bool-cases (c == 10)) [
  | inl stop ↦ rw stop (ap (λ (l : Bytes). c ∷ l) (concat-text_lines s))
  | inr go ↦
      rw go (concat-add_to_first c (text_lines s) ∙ ap (λ (l : Bytes). c ∷ l) (concat-text_lines s))
]

split_blank : (body : Bytes) → split_message (text_lines (crlf ++ body)) ≡ ([], body)
unfolding split_message starts_with cut_at
split_blank body =
    rw (text_lines_next (13 ∷ []) body ((λ e. omega arith), tt), split_message)
      (ap (λ (s : Bytes). ([], s)) (concat-text_lines body))

-- A blank line parts the header and the body.
pub split_message-text_of :
    (ls : List Bytes) (body : Bytes)
    → All IsLine ls
    → split_message (text_lines (text_of ls ++ (crlf ++ body))) ≡ (text_of ls, body)
split_message-text_of ls body h =
    rw (text_lines-text_of ls (crlf ++ body) h, split_lines ls (text_lines (crlf ++ body)) h)
      (rw (split_blank body) (ap (λ (s : Bytes). (s, body)) (append-nil (text_of ls))))

split_nothing : split_message (text_lines []) ≡ ([], [])
unfolding split_message text_lines
split_nothing = refl

-- Without a blank line there is no body.
pub split_message-open :
    (ls : List Bytes) → All IsLine ls → split_message (text_lines (text_of ls)) ≡ (text_of ls, [])
split_message-open ls h =
    let none_behind : text_of ls ++ [] ≡ text_of ls = append-nil (text_of ls) in
    rw (← none_behind)
      (rw (text_lines-text_of ls [] h, split_lines ls (text_lines []) h) (rw split_nothing))

-- The lines of a header, one after the other
module _ (read_date : Bytes → Option ℕ) where
  abbrev pub on_lines : List Bytes → Builder → Builder
  on_lines [] b = b
  on_lines (l ∷ ls) b = on_lines ls (on_line read_date l b)

  pub on_lines-append :
      (xs ys : List Bytes) (b : Builder) → on_lines (xs ++ ys) b ≡ on_lines ys (on_lines xs b)
  on_lines-append [] ys b = refl
  on_lines-append (x ∷ xs) ys b = on_lines-append xs ys (on_line read_date x b)

  zapped : (l : Bytes) → All IsPlain l → strzapcc (cut_at 0 (l ++ crlf)) ≡ l
  unfolding strzapcc
  zapped l h = rw (
    cut_at_fixed 0 (l ++ crlf) (no_nul l h),
    cut_at_stop 13 l (10 ∷ []) (plain-ne _ (λ c k. k.2) l h),
    cut_at_fixed 10 l (plain-ne _ (λ c k. k.1) l h),
  )

  on_headers-ended :
      (ls : List Bytes) (b : Builder)
      → All IsLine ls
      → on_headers read_date (ended ls) b ≡ on_lines ls b
  unfolding on_headers
  on_headers-ended [] b h = refl
  on_headers-ended (l ∷ ls) b h =
      rw (zapped l (line-All l h.0), on_headers) (on_headers-ended ls (on_line read_date l b) h.1)

  on_headers-text_of :
      (ls : List Bytes) (b : Builder)
      → All IsLine ls
      → on_headers read_date (text_lines (text_of ls)) b ≡ on_lines ls b
  unfolding text_lines
  on_headers-text_of ls b h =
      let none_behind : text_of ls ++ [] ≡ text_of ls = append-nil (text_of ls) in
      let lines : text_lines (text_of ls) ≡ ended ls =
        ap text_lines (sym none_behind) ∙ text_lines-text_of ls [] h ∙ append-nil (ended ls) in
      rw lines (on_headers-ended ls b h)

  -- wl2mime on a header, a blank line and a body
  pub wl2mime-text_of :
      (ls : List Bytes) (body : Bytes)
      → All IsLine ls
      → wl2mime read_date (text_of ls ++ (crlf ++ body))
        ≡ (on_lines ls (record { bbuf = body; calls = [] })).calls
  unfolding wl2mime
  wl2mime-text_of ls body h =
      rw (split_message-text_of ls body h, wl2mime)
        (ap (λ (b : Builder). b.calls) (on_headers-text_of ls _ h))

  -- wl2mime on a header with no blank line behind it
  pub wl2mime-open :
      (ls : List Bytes)
      → All IsLine ls
      → wl2mime read_date (text_of ls) ≡ (on_lines ls (record { bbuf = []; calls = [] })).calls
  unfolding wl2mime
  wl2mime-open ls h =
      rw (split_message-open ls h, wl2mime)
        (ap (λ (b : Builder). b.calls) (on_headers-text_of ls _ h))
