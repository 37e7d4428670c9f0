-- ===== src/Setup/Telnet/Laws.antt =====
-- wl2ktelnet.c: which setting wins.
use paclink_unix.Common.{
  ℕ, ◌≡◌, refl, ap, subst, ◌∙◌, inl, inr, Option, none, some, List, [], ◌∷◌, ◌++◌, Option-cases,
  codes,
}
use paclink_unix.Setup.{Loading, loaded, usage, no_mycall, displayed, number_of, number_or, or_else}
use paclink_unix.Setup.Telnet.{
  Telnet, Flag, version, verbose, config, send_only, help, unknown, target_call, timeout,
  email_address, password, wl2k_passwd, defaults, from_file, apply_flag, apply_flags,
}

-- The last value that the options give
abbrev pub last_of : {A : Type 0} → (Flag → Option A) → List Flag → Option A
last_of f [] = none
last_of f (x ∷ xs) = or_else (last_of f xs) (f x)

abbrev pub call_of : Flag → Option (List ℕ)
call_of (target_call s) = some s
call_of f = none

abbrev pub email_of : Flag → Option (List ℕ)
email_of (email_address s) = some s
email_of f = none

abbrev pub password_of : Flag → Option (List ℕ)
password_of (password s) = some s
password_of f = none

abbrev pub wl2k_passwd_of : Flag → Option (List ℕ)
wl2k_passwd_of (wl2k_passwd s) = some s
wl2k_passwd_of f = none

-- What the options make of `c`
abbrev pub Chosen :
    (Option (List ℕ))
    → (Option (List ℕ))
    → (Option (List ℕ))
    → (Option (List ℕ))
    → Telnet
    → Telnet
    → Type 0
Chosen call email pass secret c c' =
    (c'.targetcall ≡ or_else call c.targetcall)
    × (c'.emailaddr ≡ or_else email c.emailaddr)
    × (c'.password ≡ or_else pass c.password)
    × (c'.wl2k_password ≡ or_else secret c.wl2k_password)
    × (c'.mycall ≡ c.mycall)
    × (c'.hostname ≡ c.hostname)
    × (c'.gridsquare ≡ c.gridsquare)

abbrev ChosenBy : Flag → Telnet → Telnet → Type 0
ChosenBy f = Chosen (call_of f) (email_of f) (password_of f) (wl2k_passwd_of f)

abbrev pub ChosenByAll : List Flag → Telnet → Telnet → Type 0
ChosenByAll fs =
    Chosen (last_of call_of fs) (last_of email_of fs) (last_of password_of fs)
      (last_of wl2k_passwd_of fs)

some_injective : {A : Type 0} {x y : A} → some x ≡ some y → x ≡ y
some_injective h = cc

loaded_injective : {x y : Telnet} → loaded x ≡ loaded y → x ≡ y
loaded_injective h = cc

pub or_else_assoc :
    {A : Type 0} (x y z : Option A) → or_else x (or_else y z) ≡ or_else (or_else x y) z
or_else_assoc none y z = refl
or_else_assoc (some x) y z = refl

-- A configuration that has the settings of `c`
all_kept : (c : Telnet) → Chosen none none none none c c
all_kept c = (refl, refl, refl, refl, refl, refl, refl)

-- A flag that is no string option leaves the strings as they are.
apply_flag-Chosen : (f : Flag) (c c' : Telnet) → apply_flag f c ≡ some c' → ChosenBy f c c'
unfolding apply_flag
apply_flag-Chosen version c c' h = subst (ChosenBy version c) (some_injective h) (all_kept c)
apply_flag-Chosen verbose c c' h = subst (ChosenBy verbose c) (some_injective h) (all_kept c)
apply_flag-Chosen config c c' h = subst (ChosenBy config c) (some_injective h) (all_kept c)
apply_flag-Chosen send_only c c' h = subst (ChosenBy send_only c) (some_injective h) (all_kept c)
apply_flag-Chosen help c c' h = cc
apply_flag-Chosen unknown c c' h = cc
apply_flag-Chosen (target_call s) c c' h =
    subst (ChosenBy (target_call s) c) (some_injective h) (refl, refl, refl, refl, refl, refl, refl)
apply_flag-Chosen (email_address s) c c' h =
    subst (ChosenBy (email_address s) c) (some_injective h)
      (refl, refl, refl, refl, refl, refl, refl)
apply_flag-Chosen (password s) c c' h =
    subst (ChosenBy (password s) c) (some_injective h) (refl, refl, refl, refl, refl, refl, refl)
apply_flag-Chosen (wl2k_passwd s) c c' h =
    subst (ChosenBy (wl2k_passwd s) c) (some_injective h) (refl, refl, refl, refl, refl, refl, refl)
apply_flag-Chosen (timeout s) c c' h = by_number (number_of 32 s) h
  where
    by_number :
        (o : Option ℕ)
        → (elim o as (λ _. Option Telnet) [
          | none ↦ none
          | some secs ↦ some (record c { timeoutsecs = secs })
        ])
          ≡ some c'
        → ChosenBy (timeout s) c c'
    by_number none h = cc
    by_number (some secs) h = subst (ChosenBy (timeout s) c) (some_injective h) (all_kept c)

Chosen-then :
    (f : Flag) (fs : List Flag) (c c₁ c' : Telnet)
    → ChosenBy f c c₁
    → ChosenByAll fs c₁ c'
    → ChosenByAll (f ∷ fs) c c'
Chosen-then f fs c c₁ c' (e₁, e₂, e₃, e₄, e₅, e₆, e₇) (k₁, k₂, k₃, k₄, k₅, k₆, k₇) = (
  k₁
      ∙ ap (or_else (last_of call_of fs)) e₁
      ∙ or_else_assoc (last_of call_of fs) (call_of f) c.targetcall,
  k₂
      ∙ ap (or_else (last_of email_of fs)) e₂
      ∙ or_else_assoc (last_of email_of fs) (email_of f) c.emailaddr,
  k₃
      ∙ ap (or_else (last_of password_of fs)) e₃
      ∙ or_else_assoc (last_of password_of fs) (password_of f) c.password,
  k₄
      ∙ ap (or_else (last_of wl2k_passwd_of fs)) e₄
      ∙ or_else_assoc (last_of wl2k_passwd_of fs) (wl2k_passwd_of f) c.wl2k_password,
  k₅ ∙ e₅,
  k₆ ∙ e₆,
  k₇ ∙ e₇,
)

pub apply_flags-Chosen :
    (fs : List Flag) (c c' : Telnet) → apply_flags fs c ≡ some c' → ChosenByAll fs c c'
unfolding apply_flags
apply_flags-Chosen [] c c' h = subst (ChosenByAll [] c) (some_injective h) (all_kept c)
apply_flags-Chosen (f ∷ fs) c c' h = elim (Option-cases (apply_flag f c)) [
  | inl refused ↦ cc (rw (refused, apply_flags) at h)
  | inr (c₁, taken) ↦
      Chosen-then f fs c c₁ c' (apply_flag-Chosen f c c₁ taken)
        (apply_flags-Chosen fs c₁ c' (rw (taken, apply_flags) at h))
]

module _ (cuserid : List ℕ) (get : List ℕ → Option (List ℕ)) where
  -- What the file and the defaults give
  abbrev pub FromFile : Telnet → Type 0
  FromFile c =
      (c.targetcall ≡ some (codes "wl2k"))
      × (c.emailaddr ≡ or_else (get (codes "email")) (some (cuserid ++ codes "@localhost")))
      × (c.password ≡ or_else (get (codes "password")) (some (codes "CMSTelnet")))
      × (c.wl2k_password ≡ or_else (get (codes "wl2k-password")) none)
      × (c.mycall ≡ get (codes "mycall"))
      × (c.hostname ≡ or_else (get (codes "hostname")) (some (codes "cms.winlink.org")))
      × (c.gridsquare ≡ or_else (get (codes "gridsquare")) none)

  abbrev pub IsFromFile : Loading Telnet → Type 0
  IsFromFile (loaded c) = FromFile c
  IsFromFile usage = Unit
  IsFromFile no_mycall = get (codes "mycall") ≡ none
  IsFromFile displayed = ⊥

  abbrev filled : Telnet
  filled = record (defaults cuserid) {
    mycall = get (codes "mycall");
    emailaddr = or_else (get (codes "email")) (defaults cuserid).emailaddr;
    password = or_else (get (codes "password")) (defaults cuserid).password;
    wl2k_password = or_else (get (codes "wl2k-password")) (defaults cuserid).wl2k_password;
    gridsquare = or_else (get (codes "gridsquare")) (defaults cuserid).gridsquare;
    hostname = or_else (get (codes "hostname")) (defaults cuserid).hostname;
  }

  file_settings : (secs port : ℕ) → FromFile (record filled { timeoutsecs = secs; hostport = port })
  unfolding defaults
  file_settings secs port = (refl, refl, refl, refl, refl, refl, refl)

  by_port :
      (secs : ℕ) (o : Option ℕ)
      → IsFromFile (elim o as (λ _. Loading Telnet) [
        | none ↦ usage
        | some port ↦ loaded (record filled { timeoutsecs = secs; hostport = port })
      ])
  by_port secs none = tt
  by_port secs (some port) = file_settings secs port

  by_secs :
      (o q : Option ℕ)
      → IsFromFile (elim o as (λ _. Loading Telnet) [
        | none ↦ usage
        | some secs ↦ elim q as (λ _. Loading Telnet) [
          | none ↦ usage
          | some port ↦ loaded (record filled { timeoutsecs = secs; hostport = port })
        ]
      ])
  by_secs none q = tt
  by_secs (some secs) q = by_port secs q

  by_mycall :
      (o : Option (List ℕ)) (l : Loading Telnet)
      → get (codes "mycall") ≡ o
      → IsFromFile l
      → IsFromFile (elim o as (λ _. Loading Telnet) [ none ↦ no_mycall | some call ↦ l ])
  by_mycall none l e h = e
  by_mycall (some call) l e h = h

  pub from_file-IsFromFile : IsFromFile (from_file get (defaults cuserid))
  unfolding from_file
  from_file-IsFromFile = by_mycall (get (codes "mycall")) _ refl (
      by_secs (number_or 32 (defaults cuserid).timeoutsecs (get (codes "timeout")))
        (number_or 16 (defaults cuserid).hostport (get (codes "hostport"))))
