-- ===== src/Setup/Telnet.antt =====
-- wl2ktelnet.c: loadconfig and the dialogue with the telnet host.
pub mod Laws
pub mod Numbers
pub mod Precedence
pub mod Login
use paclink_unix.Common.{
  ℕ, zero, suc, Bool, true, false, ◌||◌, Option, none, some, List, [], ◌∷◌, ◌++◌, ◌==◌,
  if◌then◌else◌, length, codes,
}
use paclink_unix.Strutil.{strncmp_zero}
use paclink_unix.Mid.Hash.{Database}
use paclink_unix.Session.{World, stuck, Action, ◌>>=◌, ◌>>◌, return, fail, write, next_line}
use paclink_unix.Setup.{
  Loading, loaded, usage, no_mycall, displayed, Flags, no_flags, number_of, number_or, or_else,
  upper_of,
}

-- The fields of cfg_t that this program sets, before bSendonly and bVerbose; `none` is NULL.
pub record Telnet : Type 0 where
  pub mycall : Option (List ℕ)
  pub targetcall : Option (List ℕ)
  pub hostname : Option (List ℕ)
  pub hostport : ℕ
  pub timeoutsecs : ℕ
  pub password : Option (List ℕ)
  pub emailaddr : Option (List ℕ)
  pub wl2k_password : Option (List ℕ)
  pub gridsquare : Option (List ℕ)
  pub flags : Flags

-- What getopt_long returns; `flagged` is a long option that has set a flag, as the options of the
-- same meaning do.
pub data Flag : Type 0 where
  version verbose config send_only help unknown : Flag
  target_call timeout email_address password wl2k_passwd : List ℕ → Flag

unfoldable pub defaults : List ℕ → Telnet
defaults cuserid = record {
  mycall = none;
  targetcall = some (codes "wl2k");
  hostname = some (codes "cms.winlink.org");
  hostport = 8772;
  timeoutsecs = 120;
  password = some (codes "CMSTelnet");
  emailaddr = some (cuserid ++ codes "@localhost");
  wl2k_password = none;
  gridsquare = none;
  flags = no_flags;
}

-- The settings of the file, where `get` is conf_get on it
unfoldable pub from_file : (List ℕ → Option (List ℕ)) → Telnet → Loading Telnet
unfolding number_or
from_file get c =
    let filled : Telnet = record c {
      mycall = get (codes "mycall");
      emailaddr = or_else (get (codes "email")) c.emailaddr;
      password = or_else (get (codes "password")) c.password;
      wl2k_password = or_else (get (codes "wl2k-password")) c.wl2k_password;
      gridsquare = or_else (get (codes "gridsquare")) c.gridsquare;
      hostname = or_else (get (codes "hostname")) c.hostname;
    } in
    let numbered : Loading Telnet = elim (number_or 32 c.timeoutsecs (get (codes "timeout"))) [
      | none ↦ usage
      | some secs ↦ elim (number_or 16 c.hostport (get (codes "hostport"))) [
        | none ↦ usage
        | some port ↦ loaded (record filled { timeoutsecs = secs; hostport = port })
      ]
    ] in
    elim (get (codes "mycall")) [ none ↦ no_mycall | some call ↦ numbered ]

-- One turn of the `switch`; `none` is an exit by `usage`.
unfoldable pub apply_flag : Flag → Telnet → Option Telnet
apply_flag version c = some (record c { flags = record c.flags { display_version = true } })
apply_flag verbose c = some (record c { flags = record c.flags { verbose = true } })
apply_flag config c = some (record c { flags = record c.flags { display_config = true } })
apply_flag send_only c = some (record c { flags = record c.flags { send_only = true } })
apply_flag (target_call s) c = some (record c { targetcall = some s })
apply_flag (timeout s) c = elim (number_of 32 s) [
  | none ↦ none
  | some secs ↦ some (record c { timeoutsecs = secs })
]
apply_flag (email_address s) c = some (record c { emailaddr = some s })
apply_flag (password s) c = some (record c { password = some s })
apply_flag (wl2k_passwd s) c = some (record c { wl2k_password = some s })
apply_flag help c = none
apply_flag unknown c = none

unfoldable pub apply_flags : List Flag → Telnet → Option Telnet
unfolding apply_flag
apply_flags [] c = some c
apply_flags (f ∷ fs) c = elim (apply_flag f c) [ none ↦ none | some c' ↦ apply_flags fs c' ]

-- The positional arguments: the host's name and port
unfoldable pub positional : List (List ℕ) → Telnet → Option Telnet
positional [] c = some c
positional (host ∷ []) c = some (record c { hostname = some host })
positional (host ∷ port ∷ more) c = elim (number_of 16 port) [
  | none ↦ none
  | some n ↦ some (record c { hostname = some host; hostport = n })
]

abbrev pub is_null : Option (List ℕ) → Bool
is_null none = true
is_null (some s) = false

-- The tests and `strupper` at the end
unfoldable pub check : Telnet → Loading Telnet
check c =
    let incomplete = is_null c.targetcall || is_null c.hostname || c.hostport == 0 in
    let raised : Telnet = record c {
      mycall = upper_of c.mycall;
      targetcall = upper_of c.targetcall;
    } in
    let last : Loading Telnet =
      if c.flags.display_config then displayed else (if incomplete then usage else loaded raised) in
    if c.flags.display_version then displayed else last

unfoldable pub loadconfig :
    List ℕ → (List ℕ → Option (List ℕ)) → List Flag → List (List ℕ) → Loading Telnet
unfolding from_file apply_flags positional check defaults
loadconfig cuserid get fs args = elim (from_file get (defaults cuserid)) [
  | usage ↦ usage
  | no_mycall ↦ no_mycall
  | displayed ↦ displayed
  | loaded c ↦ elim (apply_flags fs c) [
    | none ↦ usage
    | some c₁ ↦ elim (positional args c₁) [ none ↦ usage | some c₂ ↦ check c₂ ]
  ]
]

module _ (D : Database) where
  -- The lines up to one that begins with `prompt`
  unfoldable pub await : ℕ → List ℕ → Action D (Unit {0})
  await zero prompt = λ w. stuck
  await (suc fuel) prompt = do
    line ← next_line
    let rest = await fuel prompt in
        if strncmp_zero (length prompt) prompt line then return tt else rest

  -- The dialogue of main in front of wl2k_exchange. A line read takes a byte at least.
  unfoldable pub telnet_login : List ℕ → List ℕ → Action D (Unit {0})
  telnet_login call secret w =
      (do
        await (suc (length w.input)) (codes "Callsign")
        write (b'.' ∷ (call ++ 13 ∷ 10 ∷ []))
        await (suc (length w.input)) (codes "Password")
        write (secret ++ 13 ∷ 10 ∷ []))
        w
