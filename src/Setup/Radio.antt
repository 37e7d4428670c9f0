-- ===== src/Setup/Radio.antt =====
-- wl2kax25.c: loadconfig.
pub mod Missing
use paclink_unix.Common.{
  ℕ, Bool, true, false, ◌||◌, Option, none, some, List, [], ◌∷◌, ◌++◌, if◌then◌else◌, codes,
}
use paclink_unix.Setup.{
  Loading, loaded, usage, no_mycall, displayed, Flags, no_flags, number_of, number_or, or_else,
  upper_of,
}

-- The fields of cfg_t that this program sets, before bSendonly and bVerbose; `none` is NULL.
pub record Radio : Type 0 where
  pub mycall : Option (List ℕ)
  pub targetcall : Option (List ℕ)
  pub timeoutsecs : ℕ
  pub ax25port : Option (List ℕ)
  pub emailaddr : Option (List ℕ)
  pub wl2k_password : Option (List ℕ)
  pub gridsquare : Option (List ℕ)
  pub flags : Flags

-- What getopt_long returns; a long option that has set a flag is the option of the same meaning.
pub data Flag : Type 0 where
  version verbose config send_only help unknown : Flag
  target_call timeout email_address wl2k_passwd port : List ℕ → Flag

unfoldable pub defaults : List ℕ → Radio
defaults cuserid = record {
  mycall = none;
  targetcall = none;
  timeoutsecs = 120;
  ax25port = none;
  emailaddr = some (cuserid ++ codes "@localhost");
  wl2k_password = none;
  gridsquare = none;
  flags = no_flags;
}

-- The settings of the file, where `get` is conf_get on it
unfoldable pub from_file : (List ℕ → Option (List ℕ)) → Radio → Loading Radio
unfolding number_or
from_file get c =
    let filled : Radio = record c {
      mycall = get (codes "mycall");
      emailaddr = or_else (get (codes "email")) c.emailaddr;
      ax25port = or_else (get (codes "ax25port")) c.ax25port;
      wl2k_password = or_else (get (codes "wl2k-password")) c.wl2k_password;
      gridsquare = or_else (get (codes "gridsquare")) c.gridsquare;
    } in
    let timed : Loading Radio = elim (number_or 32 c.timeoutsecs (get (codes "timeout"))) [
      | none ↦ usage
      | some secs ↦ loaded (record filled { timeoutsecs = secs })
    ] in
    elim (get (codes "mycall")) [ none ↦ no_mycall | some call ↦ timed ]

-- One turn of the `switch`; `none` is an exit by `usage`.
unfoldable pub apply_flag : Flag → Radio → Option Radio
apply_flag version c = some (record c { flags = record c.flags { display_version = true } })
apply_flag verbose c = some (record c { flags = record c.flags { verbose = true } })
apply_flag config c = some (record c { flags = record c.flags { display_config = true } })
apply_flag send_only c = some (record c { flags = record c.flags { send_only = true } })
apply_flag (target_call s) c = some (record c { targetcall = some s })
apply_flag (timeout s) c = elim (number_of 32 s) [
  | none ↦ none
  | some secs ↦ some (record c { timeoutsecs = secs })
]
apply_flag (email_address s) c = some (record c { emailaddr = some s })
apply_flag (wl2k_passwd s) c = some (record c { wl2k_password = some s })
apply_flag (port s) c = some (record c { ax25port = some s })
apply_flag help c = none
apply_flag unknown c = none

unfoldable pub apply_flags : List Flag → Radio → Option Radio
unfolding apply_flag
apply_flags [] c = some c
apply_flags (f ∷ fs) c = elim (apply_flag f c) [ none ↦ none | some c' ↦ apply_flags fs c' ]

-- The arguments that are left, each behind a space
unfoldable pub spaced : List (List ℕ) → List ℕ
spaced [] = []
spaced (a ∷ rest) = b' ' ∷ (a ++ spaced rest)

-- The radio path: the callsign with the arguments that are left. The buffer gets all the memory that
-- it wants.
unfoldable pub add_path : List (List ℕ) → Radio → Radio
unfolding spaced
add_path [] c = c
add_path (a ∷ rest) c =
    let call : List ℕ = elim c.targetcall [ none ↦ [] | some s ↦ s ] in
    record c { targetcall = some (call ++ spaced (a ∷ rest)) }

abbrev pub is_null : Option (List ℕ) → Bool
is_null none = true
is_null (some s) = false

-- The tests and `strupper` at the end
unfoldable pub check : Radio → Loading Radio
check c =
    let incomplete = is_null c.targetcall || is_null c.ax25port in
    let raised : Radio = record c {
      mycall = upper_of c.mycall;
      targetcall = upper_of c.targetcall;
    } in
    let last : Loading Radio =
      if c.flags.display_config then displayed else (if incomplete then usage else loaded raised) in
    if c.flags.display_version then displayed else last

unfoldable pub loadconfig :
    List ℕ → (List ℕ → Option (List ℕ)) → List Flag → List (List ℕ) → Loading Radio
unfolding from_file apply_flags add_path check defaults
loadconfig cuserid get fs args = elim (from_file get (defaults cuserid)) [
  | usage ↦ usage
  | no_mycall ↦ no_mycall
  | displayed ↦ displayed
  | loaded c ↦ elim (apply_flags fs c) [ none ↦ usage | some c₁ ↦ check (add_path args c₁) ]
]
