-- ===== src/Proposal.antt =====
-- wl2k.c: struct proposal, parse_proposal, and the proposal line that b2outboundproposal writes.
pub mod RoundTrip
use paclink_unix.Common.{
  ℕ, zero, suc, ◌%◌, ◌^◌, Bool, false, ◌||◌, Option, none, some, List, [], ◌∷◌, ◌++◌, ◌==◌,
  if◌then◌else◌,
}
use paclink_unix.Buffer.{Buffer}
use paclink_unix.Number.{decimal, strtoul}

abbrev pub mid_maxlen : ℕ
mid_maxlen = 12

-- A missing pointer is `none`; the list that `next` makes is a list of these.
pub record Proposal : Type 0 where
  pub code : ℕ
  pub kind : ℕ
  pub mid : List ℕ
  pub usize : ℕ
  pub csize : ℕ
  pub path : Option (List ℕ)
  pub ubuf : Option Buffer
  pub cbuf : Option Buffer
  pub title : Option (List ℕ)
  pub offset : ℕ
  pub accepted : Bool
  pub delete : Bool

-- The static `prop` of `parse_proposal` before anything is stored in it.
abbrev pub static_prop : Proposal
static_prop = record {
  code = 0;
  kind = 0;
  mid = [];
  usize = 0;
  csize = 0;
  path = none;
  ubuf = none;
  cbuf = none;
  title = none;
  offset = 0;
  accepted = false;
  delete = false;
}

-- `*cp++ != c` returns NULL; the end of the string is its NUL, which no tested byte equals.
unfoldable pub expect : ℕ → List ℕ → Option (List ℕ)
expect c [] = none
expect c (d ∷ s) = if d == c then some s else none

-- The loop that reads the message id: up to `n` bytes, which end before a space.
unfoldable pub read_mid : ℕ → List ℕ → Option (List ℕ × List ℕ)
read_mid zero cp = some ([], cp)
read_mid (suc n) [] = none
read_mid (suc n) (c ∷ cp) =
    let rest : Option (List ℕ × List ℕ) = elim (read_mid n cp) [
      | none ↦ none
      | some (mid, cp') ↦ some (c ∷ mid, cp')
    ] in
    if c == b' ' then some ([], c ∷ cp) else rest

infixl 5 ◌>>=◌
abbrev pub ◌>>=◌ : {A B : Type 0} → Option A → (A → Option B) → Option B
none >>= f = none
some a >>= f = f a

-- `prop.type = *cp++`, one of two letters
unfoldable pub read_kind : List ℕ → Option (ℕ × List ℕ)
read_kind [] = none
read_kind (c ∷ cp) = if c == b'C' || c == b'E' then some (c, cp) else none

-- The case 'C': what follows "FC".
unfoldable pub parse_c : List ℕ → Option Proposal
parse_c cp = do
  cp₁ ← expect b' ' cp
  (kind, cp₂) ← read_kind cp₁
  cp₃ ← expect b'M' cp₂
  cp₄ ← expect b' ' cp₃
  (mid, cp₅) ← read_mid mid_maxlen cp₄
  cp₆ ← expect b' ' cp₅
  let (usize, cp₇) = strtoul 10 cp₆
  cp₈ ← expect b' ' cp₇
  let (csize, cp₉) = strtoul 10 cp₈
  end ← expect b' ' cp₉
  some (record static_prop {
    code = b'C';
    kind = kind;
    mid = mid;
    usize = usize;
    csize = csize % 2 ^ 32;
  })

-- A code other than 'C', the string's NUL among them, gives a proposal of type 'X'.
unfoldable pub parse_code : List ℕ → Option Proposal
parse_code [] = some (record static_prop { kind = b'X' })
parse_code (c ∷ cp) =
    if c == b'C' then parse_c cp else some (record static_prop { code = c; kind = b'X' })

unfoldable pub parse_proposal : List ℕ → Option Proposal
parse_proposal propline = do cp ← expect b'F' propline; parse_code cp

-- `asprintf(&sp, "F%c %cM %s %lu %lu 0\r", ...)`, without the carriage return that ends the line
unfoldable pub proposal_line : Proposal → List ℕ
proposal_line p =
    b'F'
    ∷ p.code
    ∷ b' '
    ∷ p.kind
    ∷ b'M'
    ∷ b' '
    ∷ (p.mid ++ b' ' ∷ (decimal p.usize ++ b' ' ∷ (decimal p.csize ++ b' ' ∷ b'0' ∷ [])))
