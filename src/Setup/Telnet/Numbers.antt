-- ===== src/Setup/Telnet/Numbers.antt =====
-- wl2ktelnet.c: the numbers and the flags that loadconfig sets.
use paclink_unix.Common.{
  ℕ, ◌≡◌, refl, sym, ap, subst, ◌∙◌, inl, inr, Bool, true, false, ◌||◌, Option, none, some, List,
  [], ◌∷◌, Option-cases, codes,
}
use paclink_unix.Setup.{number_of, number_or, or_else, Flags, no_flags, loaded}
use paclink_unix.Setup.Telnet.{
  Telnet, Flag, version, verbose, config, send_only, help, unknown, target_call, timeout,
  email_address, password, wl2k_passwd, defaults, from_file, apply_flag, apply_flags, positional,
}
use paclink_unix.Setup.Telnet.Laws.{last_of, or_else_assoc}

-- The seconds that an option gives
abbrev pub seconds_of : Flag → Option ℕ
seconds_of (timeout s) = number_of 32 s
seconds_of f = none

-- The flags that one option sets
abbrev pub flags_of : Flag → Flags
flags_of version = record no_flags { display_version = true }
flags_of verbose = record no_flags { verbose = true }
flags_of config = record no_flags { display_config = true }
flags_of send_only = record no_flags { send_only = true }
flags_of f = no_flags

-- The flags that are set in either
abbrev pub join : Flags → Flags → Flags
join a b = record {
  verbose = a.verbose || b.verbose;
  send_only = a.send_only || b.send_only;
  display_config = a.display_config || b.display_config;
  display_version = a.display_version || b.display_version;
}

-- The flags that some option sets
abbrev pub all_flags : List Flag → Flags
all_flags [] = no_flags
all_flags (f ∷ fs) = join (all_flags fs) (flags_of f)

abbrev pub second_of : List (List ℕ) → Option (List ℕ)
second_of (host ∷ port ∷ more) = some port
second_of args = none

or_assoc : (a b c : Bool) → (a || (b || c)) ≡ ((a || b) || c)
or_assoc true b c = refl
or_assoc false b c = refl

join_assoc : (a b c : Flags) → join a (join b c) ≡ join (join a b) c
join_assoc a b c = rw (or_assoc a.verbose b.verbose c.verbose) (
    rw (or_assoc a.send_only b.send_only c.send_only) (
      rw (or_assoc a.display_config b.display_config c.display_config)
        (rw (or_assoc a.display_version b.display_version c.display_version))))

or_false : (b : Bool) → (b || false) ≡ b
or_false true = refl
or_false false = refl

pub join_none : (a : Flags) → join a no_flags ≡ a
join_none a =
    rw (or_false a.verbose)
      (rw (or_false a.send_only) (rw (or_false a.display_config) (rw (or_false a.display_version))))

-- What options with these seconds and flags make of `c`
abbrev Counted : Option ℕ → Flags → Telnet → Telnet → Type 0
Counted secs on c c' =
    (some c'.timeoutsecs ≡ or_else secs (some c.timeoutsecs))
    × (c'.flags ≡ join on c.flags)
    × (c'.hostport ≡ c.hostport)

abbrev CountedBy : Flag → Telnet → Telnet → Type 0
CountedBy f = Counted (seconds_of f) (flags_of f)

abbrev pub CountedByAll : List Flag → Telnet → Telnet → Type 0
CountedByAll fs = Counted (last_of seconds_of fs) (all_flags fs)

some_injective : {A : Type 0} {x y : A} → some x ≡ some y → x ≡ y
some_injective h = cc

loaded_injective : {x y : Telnet} → loaded x ≡ loaded y → x ≡ y
loaded_injective h = cc

apply_flag-Counted : (f : Flag) (c c' : Telnet) → apply_flag f c ≡ some c' → CountedBy f c c'
unfolding apply_flag
apply_flag-Counted version c c' h =
    subst (CountedBy version c) (some_injective h) (refl, refl, refl)
apply_flag-Counted verbose c c' h =
    subst (CountedBy verbose c) (some_injective h) (refl, refl, refl)
apply_flag-Counted config c c' h = subst (CountedBy config c) (some_injective h) (refl, refl, refl)
apply_flag-Counted send_only c c' h =
    subst (CountedBy send_only c) (some_injective h) (refl, refl, refl)
apply_flag-Counted help c c' h = cc
apply_flag-Counted unknown c c' h = cc
apply_flag-Counted (target_call s) c c' h =
    subst (CountedBy (target_call s) c) (some_injective h) (refl, refl, refl)
apply_flag-Counted (email_address s) c c' h =
    subst (CountedBy (email_address s) c) (some_injective h) (refl, refl, refl)
apply_flag-Counted (password s) c c' h =
    subst (CountedBy (password s) c) (some_injective h) (refl, refl, refl)
apply_flag-Counted (wl2k_passwd s) c c' h =
    subst (CountedBy (wl2k_passwd s) c) (some_injective h) (refl, refl, refl)
apply_flag-Counted (timeout s) c c' h = by_number (number_of 32 s) h
  where
    by_number :
        (o : Option ℕ)
        → (elim o as (λ _. Option Telnet) [
          | none ↦ none
          | some secs ↦ some (record c { timeoutsecs = secs })
        ])
          ≡ some c'
        → Counted o no_flags c c'
    by_number none h = cc
    by_number (some secs) h =
        subst (Counted (some secs) no_flags c) (some_injective h) (refl, refl, refl)

pub apply_flags-Counted :
    (fs : List Flag) (c c' : Telnet) → apply_flags fs c ≡ some c' → CountedByAll fs c c'
unfolding apply_flags
apply_flags-Counted [] c c' h = subst (CountedByAll [] c) (some_injective h) (refl, refl, refl)
apply_flags-Counted (f ∷ fs) c c' h = elim (Option-cases (apply_flag f c)) [
  | inl refused ↦ cc (rw (refused, apply_flags) at h)
  | inr (c₁, taken) ↦
      let (e₁, e₂, e₃) = apply_flag-Counted f c c₁ taken in
      let (k₁, k₂, k₃) = apply_flags-Counted fs c₁ c' (rw (taken, apply_flags) at h) in
      (
        k₁
            ∙ ap (or_else (last_of seconds_of fs)) e₁
            ∙ or_else_assoc (last_of seconds_of fs) (seconds_of f) (some c.timeoutsecs),
        k₂ ∙ ap (join (all_flags fs)) e₂ ∙ join_assoc (all_flags fs) (flags_of f) c.flags,
        k₃ ∙ e₃,
      )
]

-- What the arguments make of the port
abbrev pub Ported : List (List ℕ) → Telnet → Telnet → Type 0
Ported args c c' =
    (some c'.hostport ≡ number_or 16 c.hostport (second_of args))
    × (c'.timeoutsecs ≡ c.timeoutsecs)
    × (c'.flags ≡ c.flags)

pub positional-Ported :
    (args : List (List ℕ)) (c c' : Telnet) → positional args c ≡ some c' → Ported args c c'
unfolding positional number_or
positional-Ported [] c c' h = subst (Ported [] c) (some_injective h) (refl, refl, refl)
positional-Ported (host ∷ []) c c' h =
    subst (Ported (host ∷ []) c) (some_injective h) (refl, refl, refl)
positional-Ported (host ∷ port ∷ more) c c' h = elim (Option-cases (number_of 16 port)) [
  | inl refused ↦ cc (rw (refused, positional) at h)
  | inr (n, taken) ↦
      subst (Ported (host ∷ port ∷ more) c) (some_injective (rw (taken, positional) at h))
        (sym taken, refl, refl)
]

module _ (cuserid : List ℕ) (get : List ℕ → Option (List ℕ)) where
  -- The numbers and flags behind the file
  abbrev pub FileNumbers : Telnet → Type 0
  FileNumbers c =
      (number_or 32 120 (get (codes "timeout")) ≡ some c.timeoutsecs)
      × (number_or 16 8772 (get (codes "hostport")) ≡ some c.hostport)
      × (c.flags ≡ no_flags)

  pub from_file-FileNumbers :
      (c : Telnet) → from_file get (defaults cuserid) ≡ loaded c → FileNumbers c
  unfolding from_file defaults
  from_file-FileNumbers c h = elim (Option-cases (get (codes "mycall"))) [
    | inl missing ↦ cc (rw (missing, from_file) at h)
    | inr (mine, own) ↦ elim (Option-cases (number_or 32 120 (get (codes "timeout")))) [
      | inl odd ↦ cc (rw odd at (rw (own, from_file) at h))
      | inr (secs, timed) ↦ elim (Option-cases (number_or 16 8772 (get (codes "hostport")))) [
        | inl odd ↦ cc (rw odd at (rw timed at (rw (own, from_file) at h)))
        | inr (port, at_port) ↦
            subst FileNumbers
              (loaded_injective (rw at_port at (rw timed at (rw (own, from_file) at h))))
              (timed, at_port, refl)
      ]
    ]
  ]
