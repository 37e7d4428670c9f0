-- ===== src/Setup/Serial.antt =====
-- wl2kserial.c: loadconfig. The table of the baud rates, which depends on the system's termios.h, and
-- its B38400 are parameters.
pub mod Tuning
use paclink_unix.Common.{
  ℕ, Bool, true, false, ◌||◌, Option, none, some, List, [], ◌∷◌, ◌++◌, map, ◌==◌, if◌then◌else◌,
  codes,
}
use paclink_unix.Strutil.{tolower}
use paclink_unix.Conf.{strcmp_zero}
use paclink_unix.Setup.{
  Loading, loaded, usage, no_mycall, displayed, Flags, no_flags, number_of, number_or, or_else,
  upper_of,
}

-- The fields of cfg_t that this program sets, before bSendonly and bVerbose, and the names of the baud
-- rate and the modem, which are not looked up before the options are read
pub record Serial : Type 0 where
  pub mycall : Option (List ℕ)
  pub targetcall : Option (List ℕ)
  pub timeoutsecs : ℕ
  pub serialdevice : Option (List ℕ)
  pub emailaddr : Option (List ℕ)
  pub wl2k_password : Option (List ℕ)
  pub gridsquare : Option (List ℕ)
  pub baudrate : ℕ
  pub modem : ℕ
  pub baud_name : List ℕ
  pub modem_name : List ℕ
  pub flags : Flags

-- What getopt_long returns; a long option that has set a flag is the option of the same meaning.
pub data Flag : Type 0 where
  version verbose config send_only help unknown : Flag
  target_call timeout email_address wl2k_passwd device baud modem_type : List ℕ → Flag

abbrev pub scsmodem_ptciipro : ℕ
scsmodem_ptciipro = 1

abbrev pub scsmodem_p4dragon : ℕ
scsmodem_p4dragon = 2

-- `strcasecmp(s, t) == 0`
unfoldable pub strcasecmp_zero : List ℕ → List ℕ → Bool
strcasecmp_zero s t = strcmp_zero (map tolower s) (map tolower t)

-- The number of the first entry with this name, or 0
unfoldable pub find_baud : List (List ℕ × ℕ) → List ℕ → ℕ
find_baud [] name = 0
find_baud ((asc, num) ∷ table) name =
    let rest = find_baud table name in if strcmp_zero asc name then num else rest

unfoldable pub find_modem : List ℕ → ℕ
unfolding strcasecmp_zero
find_modem name =
    if strcasecmp_zero (codes "PTC-IIpro") name
    then scsmodem_ptciipro
    else (if strcasecmp_zero (codes "P4dragon") name then scsmodem_p4dragon else 0)

-- `get` is conf_get on the file.
unfoldable pub from_file : (List ℕ → Option (List ℕ)) → Serial → Loading Serial
unfolding number_or
from_file get c =
    let filled : Serial = record c {
      mycall = get (codes "mycall");
      emailaddr = or_else (get (codes "email")) c.emailaddr;
      wl2k_password = or_else (get (codes "wl2k-password")) c.wl2k_password;
      gridsquare = or_else (get (codes "gridsquare")) c.gridsquare;
      serialdevice = or_else (get (codes "device")) c.serialdevice;
      baud_name = elim (get (codes "baud")) [ none ↦ c.baud_name | some s ↦ s ];
      modem_name = elim (get (codes "modem")) [ none ↦ c.modem_name | some s ↦ s ];
    } in
    let timed : Loading Serial = elim (number_or 32 c.timeoutsecs (get (codes "timeout"))) [
      | none ↦ usage
      | some secs ↦ loaded (record filled { timeoutsecs = secs })
    ] in
    elim (get (codes "mycall")) [ none ↦ no_mycall | some call ↦ timed ]

-- One turn of the `switch`; `none` is an exit by `usage`.
unfoldable pub apply_flag : Flag → Serial → Option Serial
apply_flag version c = some (record c { flags = record c.flags { display_version = true } })
apply_flag verbose c = some (record c { flags = record c.flags { verbose = true } })
apply_flag config c = some (record c { flags = record c.flags { display_config = true } })
apply_flag send_only c = some (record c { flags = record c.flags { send_only = true } })
apply_flag (target_call s) c = some (record c { targetcall = some s })
apply_flag (timeout s) c = elim (number_of 32 s) [
  | none ↦ none
  | some secs ↦ some (record c { timeoutsecs = secs })
]
apply_flag (email_address s) c = some (record c { emailaddr = some s })
apply_flag (wl2k_passwd s) c = some (record c { wl2k_password = some s })
apply_flag (device s) c = some (record c { serialdevice = some s })
apply_flag (baud s) c = some (record c { baud_name = s })
apply_flag (modem_type s) c = some (record c { modem_name = s })
apply_flag help c = none
apply_flag unknown c = none

unfoldable pub apply_flags : List Flag → Serial → Option Serial
unfolding apply_flag
apply_flags [] c = some c
apply_flags (f ∷ fs) c = elim (apply_flag f c) [ none ↦ none | some c' ↦ apply_flags fs c' ]

abbrev pub is_null : Option (List ℕ) → Bool
is_null none = true
is_null (some s) = false

module _ (baudrates : List (List ℕ × ℕ)) (b9600 b38400 : ℕ) where
  unfoldable pub defaults : List ℕ → Serial
  defaults cuserid = record {
    mycall = none;
    targetcall = none;
    timeoutsecs = 120;
    serialdevice = none;
    emailaddr = some (cuserid ++ codes "@localhost");
    wl2k_password = none;
    gridsquare = none;
    baudrate = b9600;
    modem = scsmodem_ptciipro;
    baud_name = codes "9600";
    modem_name = codes "PTC-IIpro";
    flags = no_flags;
  }

  -- The lookups of the baud rate and the modem; `none` is an exit by `usage`.
  unfoldable pub tune : Serial → Option Serial
  unfolding find_baud find_modem
  tune c =
      let bits = find_baud baudrates c.baud_name in
      let kind = find_modem c.modem_name in
      let fast = record c { baudrate = b38400; modem = kind } in
      let plain = record c { baudrate = bits; modem = kind } in
      if bits == 0
      then none
      else (if kind == 0 then none else some (if kind == scsmodem_p4dragon then fast else plain))

  -- The tests and `strupper` at the end
  unfoldable pub check : Serial → Loading Serial
  check c =
      let incomplete = is_null c.targetcall || is_null c.serialdevice || c.baudrate == 0 in
      let raised : Serial = record c {
        mycall = upper_of c.mycall;
        targetcall = upper_of c.targetcall;
      } in
      let last : Loading Serial =
        if c.flags.display_config
        then displayed
        else (if incomplete then usage else loaded raised) in
      if c.flags.display_version then displayed else last

  unfoldable pub loadconfig : List ℕ → (List ℕ → Option (List ℕ)) → List Flag → Loading Serial
  unfolding from_file apply_flags tune check defaults
  loadconfig cuserid get fs = elim (from_file get (defaults cuserid)) [
    | usage ↦ usage
    | no_mycall ↦ no_mycall
    | displayed ↦ displayed
    | loaded c ↦ elim (apply_flags fs c) [
      | none ↦ usage
      | some c₁ ↦ elim (tune c₁) [ none ↦ usage | some c₂ ↦ check c₂ ]
    ]
  ]
