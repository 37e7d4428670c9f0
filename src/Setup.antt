-- ===== src/Setup.antt =====
-- The configuration that the main programs load (loadconfig of wl2ktelnet.c, wl2kax25.c and
-- wl2kserial.c): this file has what they share. The options come in the order in which getopt_long
-- returns them.
pub mod Telnet
pub mod Radio
pub mod Serial
use paclink_unix.Common.{
  ℕ, ◌-◌, ◌%◌, ◌^◌, Bool, false, Option, none, some, List, [], ◌∷◌, ltb, if◌then◌else◌,
}
use paclink_unix.Strutil.{strupper}
use paclink_unix.Number.{skip_spaces, read_sign, read_digits}

-- What comes of loadconfig: a configuration, an exit of the process by `usage`, for want of mycall, or
-- behind a display.
pub data Loading (A : Type 0) : Type 0 where
  loaded : A → Loading A
  usage no_mycall displayed : Loading A

-- The flags that are no part of cfg_t until the options are read
pub record Flags : Type 0 where
  pub verbose : Bool
  pub send_only : Bool
  pub display_config : Bool
  pub display_version : Bool

abbrev pub no_flags : Flags
no_flags = record {
  verbose = false;
  send_only = false;
  display_config = false;
  display_version = false;
}

-- `strtol(s, &endp, 10)`, as the C library documents it, on 64 bits in two's complement: a number out
-- of range gives LONG_MAX or LONG_MIN.
unfoldable pub strtol : List ℕ → ℕ × List ℕ
strtol s =
    let (negative, t) = read_sign (skip_spaces s) in
    let (any, n, rest) = read_digits 10 false 0 t in
    let up : ℕ = if ltb n (2 ^ 63) then n else 2 ^ 63 - 1 in
    let down : ℕ = if ltb (2 ^ 63) n then 2 ^ 63 else (2 ^ 64 - n) % 2 ^ 64 in
    if any then (if negative then down else up, rest) else (0, s)

-- A number that must be the whole string, cut to `w` bits; `none` is `*endp != '\0'`.
unfoldable pub number_of : ℕ → List ℕ → Option ℕ
unfolding strtol
number_of w s = let (n, rest) = strtol s in elim rest [ [] ↦ some (n % 2 ^ w) | c ∷ t ↦ none ]

-- A number that a line of the file gives, or what was set before
unfoldable pub number_or : ℕ → ℕ → Option (List ℕ) → Option ℕ
number_or w old none = some old
number_or w old (some s) = number_of w s

-- `strupper(s)` on a pointer that may be NULL, which it hands back as it is
abbrev pub upper_of : Option (List ℕ) → Option (List ℕ)
upper_of none = none
upper_of (some s) = some (strupper s)

-- A string that a line of the file gives, or what was set before
abbrev pub or_else : {A : Type 0} → Option A → Option A → Option A
or_else none old = old
or_else (some s) old = some s
