-- ===== src/Conf/RoundTrip.antt =====
-- conf.c: what conf_read reads from a configuration file.
use paclink_unix.Common.{
  ℕ, ◌≡◌, refl, ap, ap₂, ◌≢◌, inl, inr, Bool, true, false, not, ◌&&◌, Option, none, some, List, [],
  ◌∷◌, ◌++◌, append_assoc, arith, ◌==◌, Bool-cases, Option-cases, All, All-append,
}
use paclink_unix.Strutil.{isspace}
use paclink_unix.Strutil.Laws.{cut_at_fixed}
use paclink_unix.Number.{skip_spaces}
use paclink_unix.Conf.{
  Setting, is_delim, comment_mark, name_ends, value_ends, starts_with, conf_value, conf_line,
  conf_lines, text_lines, conf_read, conf_get, strcmp_zero,
}
use paclink_unix.Conf.Tokens.{
  Free, strtok_r_token, strtok_r_end, strtok_r_skip, strtok_r_nothing, text_lines_next,
}

-- A line of the file. `plain` is name=value, `quoted` is name = "value", and `unquoted` has spaces
-- and no quotes, name = value.
pub data Item : Type 0 where
  comment : List ℕ → List ℕ → Item
  blank : List ℕ → Item
  plain quoted unquoted : ℕ → List ℕ → ℕ → List ℕ → Item

-- The line without its line feed; a name or value is given by its first byte and the others.
abbrev pub body : Item → List ℕ
body (comment pad t) = pad ++ b'#' ∷ t
body (blank pad) = pad
body (plain n ns v vs) = n ∷ (ns ++ b'=' ∷ v ∷ vs)
body (quoted n ns v vs) = n ∷ (ns ++ b' ' ∷ b'=' ∷ b' ' ∷ b'"' ∷ v ∷ (vs ++ b'"' ∷ []))
body (unquoted n ns v vs) = n ∷ (ns ++ b' ' ∷ b'=' ∷ b' ' ∷ v ∷ vs)

abbrev pub file_of : List Item → List ℕ
file_of [] = []
file_of (i ∷ is) = body i ++ 10 ∷ file_of is

-- What a line sets: nothing, if its value stands behind a space without quotes.
abbrev pub setting_of : Item → Option Setting
setting_of (plain n ns v vs) = some (record { var = n ∷ ns; value = v ∷ vs })
setting_of (quoted n ns v vs) = some (record { var = n ∷ ns; value = v ∷ vs })
setting_of (comment pad t) = none
setting_of (blank pad) = none
setting_of (unquoted n ns v vs) = none

abbrev pub settings_of : List Item → List Setting
settings_of [] = []
settings_of (i ∷ is) = elim (setting_of i) [ none ↦ settings_of is | some s ↦ s ∷ settings_of is ]

-- What no name contains: NUL, spaces of any kind, '#' and '='.
abbrev pub name_stops : List ℕ
name_stops = 0 ∷ 9 ∷ 10 ∷ 11 ∷ 12 ∷ 13 ∷ b' ' ∷ b'#' ∷ b'=' ∷ []

-- What no value contains: NUL, line feed, '#', '=' and the quote.
abbrev pub value_stops : List ℕ
value_stops = 0 ∷ 10 ∷ b'#' ∷ b'=' ∷ b'"' ∷ []

abbrev pub IsPad : ℕ → Type 0
IsPad c = (isspace c ≡ true) × (c ≢ 10)

abbrev pub IsSetting : ℕ → List ℕ → ℕ → List ℕ → Type 0
IsSetting n ns v vs = Free name_stops (n ∷ ns) × Free value_stops (v ∷ vs) × (isspace v ≡ false)

abbrev pub IsItem : Item → Type 0
IsItem (comment pad t) = All IsPad pad × All (λ c. (c ≢ 0) × (c ≢ 10)) t
IsItem (blank pad) = All IsPad pad
IsItem (plain n ns v vs) = IsSetting n ns v vs
IsItem (quoted n ns v vs) = IsSetting n ns v vs
IsItem (unquoted n ns v vs) = IsSetting n ns v vs

-- Neither NUL nor line feed
abbrev IsLineByte : ℕ → Type 0
IsLineByte c = (c ≢ 0) × (c ≢ 10)

module _ {P Q : ℕ → Type 0} (f : (c : ℕ) → P c → Q c) where
  All-weaken : (s : List ℕ) → All P s → All Q s
  All-weaken [] h = tt
  All-weaken (c ∷ s) h = (f c h.0, All-weaken s h.1)

name-IsLineByte : (c : ℕ) → is_delim name_stops c ≡ false → IsLineByte c
name-IsLineByte c h = (λ e. ground arith, λ e. ground arith)

value-IsLineByte : (c : ℕ) → is_delim value_stops c ≡ false → IsLineByte c
value-IsLineByte c h = (λ e. ground arith, λ e. ground arith)

pad-IsLineByte : (c : ℕ) → IsPad c → IsLineByte c
unfolding isspace
pad-IsLineByte c h = (λ e. ground arith, h.1)

name-name_ends : (c : ℕ) → is_delim name_stops c ≡ false → is_delim name_ends c ≡ false
name-name_ends c h = ground arith

name-comment_mark : (c : ℕ) → is_delim name_stops c ≡ false → is_delim comment_mark c ≡ false
name-comment_mark c h = ground arith

name-isspace : (c : ℕ) → is_delim name_stops c ≡ false → isspace c ≡ false
unfolding isspace
name-isspace c h = ground arith

value-value_ends : (c : ℕ) → is_delim value_stops c ≡ false → is_delim value_ends c ≡ false
value-value_ends c h = ground arith

value-comment_mark : (c : ℕ) → is_delim value_stops c ≡ false → is_delim comment_mark c ≡ false
value-comment_mark c h = ground arith

skip_spaces_pad : (pad s : List ℕ) → All IsPad pad → skip_spaces (pad ++ s) ≡ skip_spaces s
unfolding skip_spaces
skip_spaces_pad [] s h = refl
skip_spaces_pad (c ∷ pad) s h = rw h.0.0 (skip_spaces_pad pad s h.1)

-- A line that begins with a name leaves the rest of it to conf_value.
conf_line_name :
    (n : ℕ) (ns : List ℕ) (c : ℕ) (rest : List ℕ)
    → Free name_stops (n ∷ ns)
    → is_delim name_ends c ≡ true
    → Free comment_mark (c ∷ rest)
    → conf_line (n ∷ (ns ++ c ∷ rest))
      ≡ elim (conf_value rest) [ none ↦ none | some v ↦ some (record { var = n ∷ ns; value = v }) ]
unfolding conf_line skip_spaces starts_with
conf_line_name n ns c rest names ends free =
    let first : is_delim comment_mark n ≡ false = name-comment_mark n names.0 in
    let no_mark : (n == b'#') ≡ false = ground arith in
    let whole =
      strtok_r_end comment_mark n (ns ++ c ∷ rest)
        (first, All-append _ ns (c ∷ rest) (All-weaken name-comment_mark ns names.1) free) in
    let name =
      strtok_r_token name_ends n ns c rest (All-weaken name-name_ends (n ∷ ns) names) ends in
    rw (name-isspace n names.0, no_mark, whole, name) (ground arith)

conf_value_plain :
    (v : ℕ) (vs : List ℕ) (c : ℕ) (rest : List ℕ)
    → Free value_stops (v ∷ vs)
    → isspace v ≡ false
    → is_delim value_ends c ≡ true
    → conf_value (v ∷ (vs ++ c ∷ rest)) ≡ some (v ∷ vs)
unfolding conf_value starts_with
conf_value_plain v vs c rest free no_space ends =
    rw (strtok_r_token value_ends v vs c rest (All-weaken value-value_ends (v ∷ vs) free) ends)
      (rw no_space)

-- Behind `= "` the value is the second token.
conf_value_quoted :
    (v : ℕ) (vs : List ℕ) (rest : List ℕ)
    → Free value_stops (v ∷ vs)
    → conf_value (b'=' ∷ b' ' ∷ b'"' ∷ v ∷ (vs ++ b'"' ∷ rest)) ≡ some (v ∷ vs)
unfolding conf_value starts_with isspace
conf_value_quoted v vs rest free = rw (
  strtok_r_skip value_ends b'=' (b' ' ∷ b'"' ∷ v ∷ (vs ++ b'"' ∷ rest)) refl,
  strtok_r_token value_ends b' ' [] b'"' (v ∷ (vs ++ b'"' ∷ rest)) (refl, tt) refl,
  strtok_r_token value_ends v vs b'"' rest (All-weaken value-value_ends (v ∷ vs) free) refl,
)

conf_value_unquoted :
    (v : ℕ) (vs : List ℕ)
    → Free value_stops (v ∷ vs)
    → conf_value (b'=' ∷ b' ' ∷ v ∷ (vs ++ 10 ∷ [])) ≡ none
unfolding conf_value starts_with isspace
conf_value_unquoted v vs free = rw (
  strtok_r_skip value_ends b'=' (b' ' ∷ v ∷ (vs ++ 10 ∷ [])) refl,
  strtok_r_token value_ends b' ' (v ∷ vs) 10 [] (refl, All-weaken value-value_ends (v ∷ vs) free)
      refl,
  strtok_r_nothing value_ends,
)

conf_line_item : (i : Item) → IsItem i → conf_line (body i ++ 10 ∷ []) ≡ setting_of i
unfolding conf_line starts_with skip_spaces isspace
conf_line_item (comment pad t) h =
    rw (append_assoc pad (b'#' ∷ t) (10 ∷ []), skip_spaces_pad pad (b'#' ∷ (t ++ 10 ∷ [])) h.0)
conf_line_item (blank pad) h =
    rw (skip_spaces_pad pad (10 ∷ []) h) (rw (strtok_r_nothing comment_mark))
conf_line_item (plain n ns v vs) h = rw (
  append_assoc ns (b'=' ∷ v ∷ vs) (10 ∷ []),
  conf_line_name n ns b'=' (v ∷ (vs ++ 10 ∷ [])) h.0 refl (
    refl,
    All-append _ (v ∷ vs) (10 ∷ []) (All-weaken value-comment_mark (v ∷ vs) h.1) (refl, tt),
  ),
  conf_value_plain v vs 10 [] h.1 h.2 refl,
)
conf_line_item (quoted n ns v vs) h = rw (
  append_assoc ns (b' ' ∷ b'=' ∷ b' ' ∷ b'"' ∷ v ∷ (vs ++ b'"' ∷ [])) (10 ∷ []),
  append_assoc vs (b'"' ∷ []) (10 ∷ []),
  conf_line_name n ns b' ' (b'=' ∷ b' ' ∷ b'"' ∷ v ∷ (vs ++ b'"' ∷ 10 ∷ [])) h.0 refl (
    refl,
    (
      refl,
      (
        refl,
        (
          refl,
          All-append _ (v ∷ vs) (b'"' ∷ 10 ∷ []) (All-weaken value-comment_mark (v ∷ vs) h.1)
              (refl, (refl, tt)),
        ),
      ),
    ),
  ),
  conf_value_quoted v vs (10 ∷ []) h.1,
)
conf_line_item (unquoted n ns v vs) h = rw (
  append_assoc ns (b' ' ∷ b'=' ∷ b' ' ∷ v ∷ vs) (10 ∷ []),
  conf_line_name n ns b' ' (b'=' ∷ b' ' ∷ v ∷ (vs ++ 10 ∷ [])) h.0 refl (
    refl,
    (
      refl,
      (
        refl,
        All-append _ (v ∷ vs) (10 ∷ []) (All-weaken value-comment_mark (v ∷ vs) h.1) (refl, tt),
      ),
    ),
  ),
  conf_value_unquoted v vs h.1,
)

name_line : (s : List ℕ) → Free name_stops s → All IsLineByte s
name_line = All-weaken name-IsLineByte

value_line : (s : List ℕ) → Free value_stops s → All IsLineByte s
value_line = All-weaken value-IsLineByte

abbrev line_byte : (c : ℕ) → Bool
line_byte c = not (c == 0) && not (c == 10)

line_byte_lem : (c : ℕ) → line_byte c ≡ true → IsLineByte c
line_byte_lem c h = (λ e. ground arith, λ e. ground arith)

body-IsLineByte : (i : Item) → IsItem i → All IsLineByte (body i)
body-IsLineByte (comment pad t) h =
    All-append _ pad (b'#' ∷ t) (All-weaken pad-IsLineByte pad h.0) (line_byte_lem b'#' refl, h.1)
body-IsLineByte (blank pad) h = All-weaken pad-IsLineByte pad h
body-IsLineByte (plain n ns v vs) h =
    All-append _ (n ∷ ns) (b'=' ∷ v ∷ vs) (name_line (n ∷ ns) h.0)
      (line_byte_lem b'=' refl, value_line (v ∷ vs) h.1)
body-IsLineByte (quoted n ns v vs) h =
    All-append _ (n ∷ ns) (b' ' ∷ b'=' ∷ b' ' ∷ b'"' ∷ v ∷ (vs ++ b'"' ∷ []))
      (name_line (n ∷ ns) h.0)
      (
        line_byte_lem b' ' refl,
        (
          line_byte_lem b'=' refl,
          (
            line_byte_lem b' ' refl,
            (
              line_byte_lem b'"' refl,
              All-append _ (v ∷ vs) (b'"' ∷ []) (value_line (v ∷ vs) h.1)
                  (line_byte_lem b'"' refl, tt),
            ),
          ),
        ),
      )
body-IsLineByte (unquoted n ns v vs) h =
    All-append _ (n ∷ ns) (b' ' ∷ b'=' ∷ b' ' ∷ v ∷ vs) (name_line (n ∷ ns) h.0) (
      line_byte_lem b' ' refl,
      (line_byte_lem b'=' refl, (line_byte_lem b' ' refl, value_line (v ∷ vs) h.1)),
    )

conf_lines-file_of :
    (is : List Item) → All IsItem is → conf_lines (text_lines (file_of is)) ≡ settings_of is
unfolding conf_lines text_lines
conf_lines-file_of [] h = refl
conf_lines-file_of (i ∷ is) h =
    let good = body-IsLineByte i h.0 in
    let no_nul : All (λ c. c ≢ 0) (body i ++ 10 ∷ []) =
      All-append _ (body i) (10 ∷ []) (All-weaken (λ c k. k.0) (body i) good)
        ((λ e. omega arith), tt) in
    rw (text_lines_next (body i) (file_of is) (All-weaken (λ c k. k.1) (body i) good), conf_lines)
      (rw (cut_at_fixed 0 (body i ++ 10 ∷ []) no_nul, conf_line_item i h.0)
        (ap (λ (l : List Setting). elim (setting_of i) [ none ↦ l | some s ↦ s ∷ l ])
          (conf_lines-file_of is h.1)))

pub strcmp_zero_refl : (s : List ℕ) → strcmp_zero s s ≡ true
unfolding strcmp_zero
strcmp_zero_refl [] = refl
strcmp_zero_refl (c ∷ s) = ground (arith, strcmp_zero_refl s)

pub strcmp_zero_eq : (s t : List ℕ) → strcmp_zero s t ≡ true → s ≡ t
unfolding strcmp_zero
strcmp_zero_eq [] [] h = refl
strcmp_zero_eq [] (d ∷ t) h = cc
strcmp_zero_eq (c ∷ s) [] h = cc
strcmp_zero_eq (c ∷ s) (d ∷ t) h = ap₂ ◌∷◌ (ground arith) (strcmp_zero_eq s t (ground arith))

-- No line sets the variable.
abbrev pub Unset : List ℕ → List Item → Type 0
Unset var is = All (λ i. (t : Setting) → setting_of i ≡ some t → t.var ≢ var) is

settings_of-some :
    (i : Item) (is : List Item) (s : Setting)
    → setting_of i ≡ some s
    → settings_of (i ∷ is) ≡ s ∷ settings_of is
settings_of-some i is s e = rw (e, settings_of)

settings_of-none :
    (i : Item) (is : List Item) → setting_of i ≡ none → settings_of (i ∷ is) ≡ settings_of is
settings_of-none i is e = rw (e, settings_of)

conf_get_first :
    (is : List Item) (i : Item) (more : List Item) (s : Setting)
    → setting_of i ≡ some s
    → Unset s.var is
    → conf_get (settings_of (is ++ i ∷ more)) s.var ≡ some s.value
unfolding conf_get
conf_get_first [] i more s e h =
    rw (settings_of-some i more s e, conf_get) (rw (strcmp_zero_refl s.var))
conf_get_first (j ∷ is) i more s e h = elim (Option-cases (setting_of j)) [
  | inl unset ↦ rw (settings_of-none j (is ++ i ∷ more) unset) (conf_get_first is i more s e h.1)
  | inr (t, sets) ↦ elim (Bool-cases (strcmp_zero t.var s.var)) [
    | inl same ↦ absurd (h.0 t sets (strcmp_zero_eq t.var s.var same))
    | inr other ↦
        rw (settings_of-some j (is ++ i ∷ more) t sets, conf_get)
          (rw other (conf_get_first is i more s e h.1))
  ]
]

-- conf_read reads exactly the settings of a file of comments, blank lines and settings, in their
-- order, whether as name=value or name = "value"; of name = value, with spaces and no quotes, it
-- takes nothing. conf_get then finds the value of the first line that sets a variable. Names have
-- no NUL, space, '#' or '='; values have no NUL, line feed, '#', '=' or quote, and do not begin
-- with a space; the file can be read.
pub conf_get-conf_read :
    (is : List Item) (i : Item) (more : List Item) (s : Setting)
    → All IsItem (is ++ i ∷ more)
    → setting_of i ≡ some s
    → Unset s.var is
    → (conf_read (some (file_of (is ++ i ∷ more))) ≡ some (settings_of (is ++ i ∷ more)))
      × (conf_get (settings_of (is ++ i ∷ more)) s.var ≡ some s.value)
unfolding conf_read
conf_get-conf_read is i more s h e u =
    (ap some (conf_lines-file_of (is ++ i ∷ more) h), conf_get_first is i more s e u)
