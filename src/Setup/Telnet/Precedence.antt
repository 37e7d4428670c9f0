-- ===== src/Setup/Telnet/Precedence.antt =====
-- wl2ktelnet.c: the configuration that loadconfig hands to the exchange.
use paclink_unix.Common.{ℕ, ◌≡◌, ◌≢◌, Option, none, some, List, [], ◌∷◌, ◌++◌, codes}
use paclink_unix.Strutil.{strupper}
use paclink_unix.Setup.{Loading, loaded, usage, no_mycall, displayed, number_or, or_else}
use paclink_unix.Setup.Telnet.{Telnet, Flag}
use paclink_unix.Setup.Telnet.Numbers.{seconds_of, all_flags, second_of}
use paclink_unix.Setup.Telnet.Laws.{last_of, call_of, email_of, password_of, wl2k_passwd_of}

abbrev pub first_of : List (List ℕ) → Option (List ℕ)
first_of [] = none
first_of (s ∷ ss) = some s

-- What the positional arguments change: the host's name, and its port
abbrev Placed : List (List ℕ) → Telnet → Telnet → Type 0
Placed args c c' =
    (c'.hostname ≡ or_else (first_of args) c.hostname)
    × (c'.targetcall ≡ c.targetcall)
    × (c'.emailaddr ≡ c.emailaddr)
    × (c'.password ≡ c.password)
    × (c'.wl2k_password ≡ c.wl2k_password)
    × (c'.mycall ≡ c.mycall)
    × (c'.gridsquare ≡ c.gridsquare)

module _ (cuserid : List ℕ) (get : List ℕ → Option (List ℕ)) (fs : List Flag)
    (args : List (List ℕ)) where
  -- The settings that win: of the command line its last, then the file's, then the default
  pub record Wins (c : Telnet) : Type 0 where
    pub mycall :
        (mine : List ℕ) × (get (codes "mycall") ≡ some mine) × (c.mycall ≡ some (strupper mine))
    pub targetcall :
        (theirs : List ℕ) × (or_else (last_of call_of fs) (some (codes "wl2k")) ≡ some theirs)
        × (c.targetcall ≡ some (strupper theirs))
    pub hostname :
        c.hostname
        ≡ or_else
            (first_of args)
            (or_else (get (codes "hostname")) (some (codes "cms.winlink.org")))
    pub hostport :
        (port : ℕ) × (number_or 16 8772 (get (codes "hostport")) ≡ some port)
        × (some c.hostport ≡ number_or 16 port (second_of args))
        × (c.hostport ≢ 0)
    pub timeoutsecs :
        (secs : ℕ) × (number_or 32 120 (get (codes "timeout")) ≡ some secs)
        × (some c.timeoutsecs ≡ or_else (last_of seconds_of fs) (some secs))
    pub flags : c.flags ≡ all_flags fs
    pub emailaddr :
        c.emailaddr
        ≡ or_else
            (last_of email_of fs)
            (or_else (get (codes "email")) (some (cuserid ++ codes "@localhost")))
    pub password :
        c.password
        ≡ or_else
            (last_of password_of fs)
            (or_else (get (codes "password")) (some (codes "CMSTelnet")))
    pub wl2k_password :
        c.wl2k_password
        ≡ or_else (last_of wl2k_passwd_of fs) (or_else (get (codes "wl2k-password")) none)
    pub gridsquare : c.gridsquare ≡ or_else (get (codes "gridsquare")) none

  -- A configuration whose settings win, or an exit
  abbrev pub IsSound : Loading Telnet → Type 0
  IsSound (loaded c) = Wins c
  IsSound usage = Unit
  IsSound no_mycall = get (codes "mycall") ≡ none
  IsSound displayed = Unit

  -- The numbers and flags that win
  record Counts (c : Telnet) : Type 0 where
    port :
        (port : ℕ) × (number_or 16 8772 (get (codes "hostport")) ≡ some port)
        × (some c.hostport ≡ number_or 16 port (second_of args))
    secs :
        (secs : ℕ) × (number_or 32 120 (get (codes "timeout")) ≡ some secs)
        × (some c.timeoutsecs ≡ or_else (last_of seconds_of fs) (some secs))
    on : c.flags ≡ all_flags fs
