-- ===== src/Conf.antt =====
-- conf.c: conf_read and conf_get. The configuration file is the list of its bytes, which
-- buffer_readfile has read; a string is the list of its bytes before the NUL, and memory is granted.
pub mod Tokens
pub mod RoundTrip
use paclink_unix.Common.{
  ℕ, Bool, true, false, ◌&&◌, ◌||◌, Option, none, some, List, [], ◌∷◌, ◌==◌, if◌then◌else◌,
}
use paclink_unix.Strutil.{isspace, cut_at}
use paclink_unix.Number.{skip_spaces}

-- struct conf; the list is linked by `next`.
pub record Setting : Type 0 where
  pub var : List ℕ
  pub value : List ℕ

abbrev pub is_delim : List ℕ → ℕ → Bool
is_delim [] c = false
is_delim (d ∷ ds) c = c == d || is_delim ds c

unfoldable pub skip_delims : List ℕ → List ℕ → List ℕ
skip_delims ds [] = []
skip_delims ds (c ∷ s) = let rest = skip_delims ds s in if is_delim ds c then rest else c ∷ s

-- The token at the start of a string, and what stands behind the delimiter that ends it.
unfoldable pub split_token : List ℕ → List ℕ → List ℕ × List ℕ
split_token ds [] = ([], [])
split_token ds (c ∷ s) =
    let (token, rest) = split_token ds s in if is_delim ds c then ([], s) else (c ∷ token, rest)

-- `strtok_r`: the token, and the string that `last` points to.
unfoldable pub strtok_r : List ℕ → List ℕ → Option (List ℕ × List ℕ)
unfolding skip_delims split_token
strtok_r ds s = elim (skip_delims ds s) [ [] ↦ none | c ∷ t ↦ some (split_token ds (c ∷ t)) ]

infixl 5 ◌>>=◌
abbrev pub ◌>>=◌ : {A B : Type 0} → Option A → (A → Option B) → Option B
none >>= f = none
some a >>= f = f a

abbrev pub comment_mark : List ℕ
comment_mark = b'#' ∷ []

abbrev pub name_ends : List ℕ
name_ends = b'=' ∷ b' ' ∷ 10 ∷ []

abbrev pub value_ends : List ℕ
value_ends = b'=' ∷ b'"' ∷ 10 ∷ []

unfoldable pub starts_with : (ℕ → Bool) → List ℕ → Bool
starts_with p [] = false
starts_with p (c ∷ s) = p c

-- The rest of a line from the value on: a value that begins with a space gives way to the next token.
unfoldable pub conf_value : List ℕ → Option (List ℕ)
conf_value last = do
  (value, last') ← strtok_r value_ends last
  let next : Option (List ℕ) = (do (value', _) ← strtok_r value_ends last'; some value')
  if starts_with isspace value then next else some value

-- What one line of the file sets, if it sets something.
unfoldable pub conf_line : List ℕ → Option Setting
conf_line line =
    let cp = skip_spaces line in
    let setting : Option Setting = (do
      (cp', _) ← strtok_r comment_mark cp
      (var, last) ← strtok_r name_ends cp'
      value ← conf_value last
      some (record { var = var; value = value })) in
    if starts_with (λ c. c == b'#') cp then none else setting

-- The strings that `buffer_getline(b, '\n')` returns, one after the other.
unfoldable pub add_to_first : ℕ → List (List ℕ) → List (List ℕ)
add_to_first c [] = (c ∷ []) ∷ []
add_to_first c (l ∷ ls) = (c ∷ l) ∷ ls

unfoldable pub text_lines : List ℕ → List (List ℕ)
unfolding add_to_first
text_lines [] = []
text_lines (c ∷ s) = let ls = text_lines s in if c == 10 then (c ∷ []) ∷ ls else add_to_first c ls

unfoldable pub conf_lines : List (List ℕ) → List Setting
conf_lines [] = []
conf_lines (l ∷ ls) = elim (conf_line (cut_at 0 l)) [
  | none ↦ conf_lines ls
  | some s ↦ s ∷ conf_lines ls
]

-- `none` is the exit of a file that cannot be read.
unfoldable pub conf_read : Option (List ℕ) → Option (List Setting)
unfolding conf_lines
conf_read none = none
conf_read (some file) = some (conf_lines (text_lines file))

-- `strcmp(s, t) == 0`
unfoldable pub strcmp_zero : List ℕ → List ℕ → Bool
strcmp_zero [] [] = true
strcmp_zero [] (d ∷ t) = false
strcmp_zero (c ∷ s) [] = false
strcmp_zero (c ∷ s) (d ∷ t) = c == d && strcmp_zero s t

unfoldable pub conf_get : List Setting → List ℕ → Option (List ℕ)
unfolding strcmp_zero
conf_get [] var = none
conf_get (s ∷ ss) var =
    let rest = conf_get ss var in if strcmp_zero s.var var then some s.value else rest
